-- ===== src/Lib.antt =====
-- The wallet, the payment arm, the GDP units, governance, recalls and chain watchers of the IRG
-- backend (Django, directory backend), modelled as functions on explicit state.
--
-- Wallet/ is backend/wallet_access. An account (Wallet/Model.antt) is a user with the wallet and the
-- rows that belong to it: nominees, devices, events, recovery and transfer cases, and what was sent
-- and told to the chain. A call of services.py is an action on an account (Wallet/Monad.antt): it
-- answers or raises, and `atomic` undoes the writes of a call that raises. The names are those of
-- the source:
--   Wallet/Policy.antt      the constants, _validate_wallet_password, _hash_seed_phrase, and
--                           _safety_check of notifications.py
--   Wallet/Password.antt    verify_wallet_password, change_wallet_password
--   Wallet/Activation.antt  activate_wallet, get_wallet_info
--   Wallet/Nominees.antt    update_nominees
--   Wallet/Devices.antt     bind_new_device, revoke_device, emergency_freeze
--   Wallet/Recovery.antt    the three recoveries, cancel_recovery, execute_ombudsman_order
--   Wallet/Ownership.antt   initiate_ownership_transfer, cancel_ownership_transfer
--   Wallet/Inactivity.antt  touch_activity, confirm_liveness, sweep_inactivity
--   Wallet/Guard.antt       wallet_check and require_transactable of guard.py
--   Wallet/Throttle.antt    middleware.py
--   Wallet/Admin.antt       the actions on wallets of admin.py
--   Wallet/Life.antt        all calls as the steps of a relation
-- Paa/ is backend/payment_bridge. Its state (Paa/Model.antt) is the tables of models.py and the
-- overrides of the exchange rates:
--   Paa/Schema.antt         paa_schema.py
--   Paa/Rules.antt          _validate_transaction and _initial_status_for of paa_service.py
--   Paa/Transactions.antt   createTransaction, approveTransaction, executeTransaction,
--                           cancelTransaction, recordOracleConfirmation
--   Paa/Budgets.antt        proposeBudget, voteOnRuleChange, applyApprovedRuleChange,
--                           uploadCourtApproval, createCorpusFund
--   Paa/Life.antt           all these calls as the steps of a relation
-- Gdp/ is backend/irg_gdp. Its state (Gdp/Model.antt) is the tables of models.py:
--   Gdp/Minting.antt        calculate_units, and the view set of minting
--   Gdp/Swaps.antt          the view set of swaps
--   Gdp/Trading.antt        the view set of trades, with _match_order
--   Gdp/Transfers.antt      the view sets of transfers and of earmarks
--   Gdp/Admin.antt          the actions of admin.py
--   Gdp/Guarded.antt        the views behind require_transactable
--   Gdp/Life.antt           the calls as the steps of a relation
-- Governance/ is backend/governance, Recall/ is backend/recall:
--   Governance/Voting.antt  proposals, votes and execution; Governance/Life.antt their steps
--   Recall/Execution.antt   recall orders, which burn the units of Gdp/
--   Recall/Dac.antt         nodes, votes of the DAC and emergency actions
-- Chain/ is the watchers of the chain and the licence guard:
--   Chain/Watcher.antt      the loop of watch_ombudsman_orders.py in
--                           backend/wallet_access/management/commands, and the cursor of
--                           backend/chain/models.py
--   Chain/Orders.antt       what a watcher does with an event, there and in watch_chain_events.py
--   Chain/Escrow.antt       backend/chain/management/commands/reconcile_escrow.py
--   Chain/Licence.antt      backend/chain/licence_guard.py
-- The parts meet in three places: the wallet guard stands in front of the views of Gdp/, a recall
-- and the voting power of Governance/ use the units of Gdp/, and a watcher gives orders to the
-- recovery of Wallet/. The theorems about a file are in the modules below it, those about a life in
-- Life/. Base/ holds lists, tests, signed integers and texts; Tests/ runs the definitions at
-- concrete inputs.
--
-- The clock, the keys that the database or `_uid` draws, the random salts and the outcome of a call
-- of the chain are arguments. Django's hashers, hashlib, Python's character classes and the
-- rounding of decimal columns are the fields of the record Platform, of which only one thing is
-- assumed throughout: that check_password accepts the password that make_password was given. Money
-- is exact: an amount is an integer in units of 10^-12 and an amount in USD one in units of 10^-16,
-- where the source computes with floats; a share in percent is an integer in units of 10^-12. What
-- a decimal column keeps of a number is a function that is given (`to_column` of Platform, Column
-- in Paa/): the rows of transactions and of nominees hold what it answers, and a theorem that
-- relies on the rounding has that as a hypothesis. All loops of the source run over lists and are
-- structural recursion, and a loop without an end runs over the list of its rounds, so there is no
-- fuel. Texts are not cut to the length of their columns, and texts that users give are taken not
-- to hold the parts that notifications.py forbids, on which `notify` raises. A number that the
-- payment arm is given is a number (no NaN), and a limit of a budget is not negative.
--
-- In Gdp/ the floats are kept: a float is its bits, and their arithmetic and the rounding to the
-- places of a column are the fields of the record Arithmetic, of which only what a theorem names is
-- assumed; amounts are not negative. A row's key is one that its table does not hold yet where a
-- theorem says so. What a call of the chain answers is an argument that is `none` if the call
-- raises, the events of a block are a function of its number, and one round of a watcher is an
-- argument with the head that it saw.
--
-- The licence guard takes base64, SHA-256, Ed25519, JSON and the methods of `str` as the record
-- Crypto, of which nothing is assumed.
--
-- Not modelled: the lookups of accounts among many, notification texts, the export to CSV, the
-- views of the wallet, the trustee scores and the reports of the payment arm, the generic PUT,
-- PATCH and DELETE of the view sets, the bonus allocations, the applications disputes, oracle,
-- corpus, irg_gic, irg_jdb, irg_jr and core, the chain client with its encoders, and
-- services/blockchain.py. They are storage around Django, calls of other services, or left for
-- later.
pub mod Base
pub mod Wallet
pub mod Paa
pub mod Gdp
pub mod Governance
pub mod Chain
pub mod Recall
pub mod Tests
