-- ===== src/Gdp/Swaps/Rows.antt =====
-- Which units a confirmed swap takes.
use irg_gdp.Gdp.Model.{Gdp}
