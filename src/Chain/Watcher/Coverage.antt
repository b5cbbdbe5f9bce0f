-- ===== src/Chain/Watcher/Coverage.antt =====
-- Which logs a watcher handles, and when.
use irg_gdp.Base.{
  ℕ, zero, suc, ◌+◌, ◌-◌, ◌≤◌, ◌<◌, ◌≡◌, refl, sym, ap, ◌∙◌, Bool, List, [], ◌∷◌, ◌++◌, arith, leb,
  Bool-cases, inl, inr,
}
use irg_gdp.Chain.Watcher.{Watch, Poll, failed, seen, scan, handle_all, advance, poll, run}

module _ {A S : Type 0} (chain : ℕ → List A) (handle : A → S → S) where
  handle_all-append :
      (xs ys : List A) (s : S)
      → handle_all handle (xs ++ ys) s ≡ handle_all handle ys (handle_all handle xs s)
  unfolding handle_all
  handle_all-append [] ys s = refl
  handle_all-append (x ∷ xs) ys s = handle_all-append xs ys (handle x s)

  append_assoc : (xs ys zs : List A) → (xs ++ ys) ++ zs ≡ xs ++ (ys ++ zs)
  append_assoc [] ys zs = refl
  append_assoc (x ∷ xs) ys zs = ap (λ l. x ∷ l) (append_assoc xs ys zs)

  -- Two adjacent windows make one.
  scan-append : (b m n c : ℕ) → b + m ≡ c → scan chain b (m + n) ≡ scan chain b m ++ scan chain c n
  unfolding scan
  scan-append b zero n c e =
      let k : b ≡ c = omega arith in let z : 0 + n ≡ n = omega arith in rw (z, k) refl
  scan-append b (suc m) n c e =
      let z : suc m + n ≡ suc (m + n) = omega arith in
      rw z (
        ap (λ l. chain b ++ l) (scan-append (b + 1) m n c (omega arith))
        ∙ sym (append_assoc (chain b) (scan chain (b + 1) m) (scan chain c n)))

  -- A watcher that started above block `first` on `s` has handled the logs of the blocks from there
  -- to its last block, in order and each once.
  abbrev pub HasHandled : ℕ → S → Watch S → Type 0
  HasHandled first s w =
      (n : ℕ) × (w.last_block ≡ first + n)
      × (w.store ≡ handle_all handle (scan chain (first + 1) n) s)

  module _ (confirmations : ℕ) where
    windows_join :
        (first n last to_block : ℕ) (s t : S)
        → last ≡ first + n
        → last ≤ to_block
        → t ≡ handle_all handle (scan chain (first + 1) n) s
        → handle_all handle (scan chain (last + 1) (to_block + 1 - (last + 1))) t
          ≡ handle_all handle (scan chain (first + 1) (n + (to_block + 1 - (last + 1)))) s
    windows_join first n last to_block s t e l f =
        let m = to_block + 1 - (last + 1) in
        let k : first + 1 + n ≡ last + 1 = omega arith in
        rw (f, scan-append (first + 1) n m (last + 1) k)
          (sym (handle_all-append (scan chain (first + 1) n) (scan chain (last + 1) m) s))

    poll-HasHandled :
        (first : ℕ) (s : S) (p : Poll) (w : Watch S)
        → HasHandled first s w
        → HasHandled first s (poll chain handle confirmations p w)
    unfolding poll advance
    poll-HasHandled first s failed w h = h
    poll-HasHandled first s (seen head is_saved) w (n, e, f) =
        elim (Bool-cases (leb (head - confirmations) w.last_block)) [
          | inl b ↦ rw (b) (n, e, f)
          | inr b ↦
              let l : w.last_block ≤ head - confirmations = ground arith in
              rw (b) (
                n + (head - confirmations + 1 - (w.last_block + 1)),
                omega arith,
                windows_join first n w.last_block (head - confirmations) s w.store e l f,
              )
        ]

    -- Whatever the rounds meet, a watcher that starts above block `first` has handled the logs of
    -- the blocks from there to its last block as one scan of them does: in order, none left out and
    -- none twice.
    pub run-HasHandled :
        (first : ℕ) (s : S) (ps : List Poll) (w : Watch S)
        → HasHandled first s w
        → HasHandled first s (run chain handle confirmations ps w)
    unfolding run
    run-HasHandled first s [] w h = h
    run-HasHandled first s (p ∷ ps) w h =
        run-HasHandled first s ps (poll chain handle confirmations p w)
          (poll-HasHandled first s p w h)

    poll-forward :
        (p : Poll) (w : Watch S) → w.last_block ≤ (poll chain handle confirmations p w).last_block
    unfolding poll advance
    poll-forward failed w = omega arith
    poll-forward (seen head is_saved) w = ground arith

    run-forward :
        (ps : List Poll) (w : Watch S)
        → w.last_block ≤ (run chain handle confirmations ps w).last_block
    unfolding run
    run-forward [] w = omega arith
    run-forward (p ∷ ps) w =
        let x = poll-forward p w in
        let y = run-forward ps (poll chain handle confirmations p w) in omega (arith, x, y)

    poll_reaches :
        (b head : ℕ) (is_saved : Bool) (w : Watch S)
        → b + confirmations ≤ head
        → b ≤ (poll chain handle confirmations (seen head is_saved) w).last_block
    unfolding poll advance
    poll_reaches b head is_saved w h = ground arith

    last_reaches :
        (b head : ℕ) (is_saved : Bool) (before after : List Poll) (w : Watch S)
        → b + confirmations ≤ head
        → b ≤ (run chain handle confirmations (before ++ (seen head is_saved ∷ after)) w).last_block
    unfolding run
    last_reaches b head is_saved [] after w h =
        let w' = poll chain handle confirmations (seen head is_saved) w in
        omega (arith, poll_reaches b head is_saved w h, run-forward after w')
    last_reaches b head is_saved (p ∷ before) after w h =
        last_reaches b head is_saved before after (poll chain handle confirmations p w) h

    -- A scan of blocks is what comes before one of them, the logs of that one, and what follows.
    scan_around :
        (m n b first : ℕ)
        → b ≡ first + 1 + m
        → scan chain (first + 1) (m + suc n)
          ≡ scan chain (first + 1) m ++ (chain b ++ scan chain (b + 1) n)
    unfolding scan
    scan_around m n b first e = scan-append (first + 1) m (suc n) b (omega arith)

    -- The logs of a block above `first` are handled, after those of the blocks from `first` to it
    -- and before those of later blocks, as soon as one round sees a head that is as many blocks above
    -- it as there are confirmations; the rounds before and after may fail. The watcher starts as one
    -- that has handled the blocks above `first` up to its last one.
    pub block_is_reached :
        (first b head : ℕ) (s : S) (is_saved : Bool) (before after : List Poll) (w : Watch S)
        → HasHandled first s w
        → first < b
        → b + confirmations ≤ head
        → (n : ℕ) × ((run chain handle confirmations
              (before ++ (seen head is_saved ∷ after))
              w).store
            ≡ handle_all handle (scan chain (b + 1) n) (
                handle_all handle
                  (chain b)
                  (handle_all handle (scan chain (first + 1) (b - (first + 1))) s)))
    block_is_reached first b head s is_saved before after w start above h =
        let ps = before ++ (seen head is_saved ∷ after) in
        let (n, e, f) = run-HasHandled first s ps w start in
        let l = last_reaches b head is_saved before after w h in
        let m = b - (first + 1) in
        let k = n - (m + 1) in
        let g : n ≡ m + suc k = omega (arith, e, l) in
        let c : b ≡ first + 1 + m = omega arith in
        (
          k,
          f
              ∙ (ap (λ j. handle_all handle (scan chain (first + 1) j) s) g
                  ∙ (ap (λ xs. handle_all handle xs s) (scan_around m k b first c)
                      ∙ (handle_all-append (scan chain (first + 1) m)
                            (chain b ++ scan chain (b + 1) k) s
                          ∙ handle_all-append (chain b) (scan chain (b + 1) k)
                              (handle_all handle (scan chain (first + 1) m) s)))),
        )
