-- ===== src/Otp/Verify.antt =====
-- Which codes are accepted.
use gitus.Prelude.{
  if◌then◌else◌, suc, zero, ℕ, Bytes, ◌+◌, Bool, ◌%◌, ◌≤◌, beq, ◌<◌, ◌^◌, ◌≡◌, ◌≢◌, none, some, ◌⊎◌,
  arith, suc, inl, refl, subst, sym, true, beq→eq, eq→beq, false, inr, ◌∙◌,
}
use gitus.Otp.{
  Crypto, hotp_code, scan, verify_code, decode_secret, normalize_digits, normalize_code,
}
use gitus.Otp.Codes.{hotp_code-length}

-- The counter that is looked at in the step `i` of the loop.
abbrev pub counter_at : ℕ → ℕ → ℕ
counter_at counter i = (counter + i) % 2 ^ 64

-- A step of `n` steps from `i` on whose code is `c`, and none before it is.
pub record Found (k : Crypto) (key c : Bytes) (counter d i n at : ℕ) : Type 0 where
  pub step : ℕ
  pub from : i ≤ step
  pub before : step < i + n
  pub counted : at ≡ counter_at counter step
  pub same : hotp_code k key at d ≡ c
  pub first : (j : ℕ) → i ≤ j → j < step → hotp_code k key (counter_at counter j) d ≢ c

true_not_false : true ≢ false
true_not_false h = cc

module _ (k : Crypto) (key c : Bytes) (counter d : ℕ) where
  le_cases : (i j : ℕ) → i ≤ j → (i ≡ j) ⊎ (i + 1 ≤ j)
  le_cases i j h = ground arith

  from_later :
      (i step : ℕ) (P : ℕ → Type 0)
      → P i
      → ((j : ℕ) → i + 1 ≤ j → j < step → P j)
      → (j : ℕ) → i ≤ j
      → j < step
      → P j
  from_later i step P n f j a b = elim (le_cases i j a) [
    | inl same ↦ subst P same n
    | inr later ↦ f j later b
  ]

  matched_step :
      (i n at : ℕ) (b : Bool)
      → beq (hotp_code k key (counter_at counter i) d) c ≡ b
      → (scan k key c counter d (i + 1) n ≡ some at → Found k key c counter d (i + 1) n at)
      → (if b then some (counter_at counter i) else scan k key c counter d (i + 1) n) ≡ some at
      → Found k key c counter d i (suc n) at
  matched_step i n at true q r h = record {
    step = i;
    from = omega arith;
    before = omega arith;
    counted = ground arith;
    same = subst (λ x. hotp_code k key x d ≡ c) (ground arith) (beq→eq _ _ q);
    first = λ j a b. absurd (omega (arith, a, b));
  }
  matched_step i n at false q r h =
      let f = r h in
      record {
        step = f.step;
        from = omega (arith, f.from);
        before = omega (arith, f.before);
        counted = f.counted;
        same = f.same;
        first =
            from_later i f.step (λ j. hotp_code k key (counter_at counter j) d ≢ c)
              (λ e. true_not_false (sym (eq→beq _ _ e) ∙ q)) f.first;
      }

  scan-Found : (i n at : ℕ) → scan k key c counter d i n ≡ some at → Found k key c counter d i n at
  unfolding scan
  scan-Found i zero at h = absurd (ground arith)
  scan-Found i (suc n) at h = matched_step i n at _ refl (scan-Found (i + 1) n at) h

  unmatched_step :
      (i n : ℕ) (b : Bool)
      → beq (hotp_code k key (counter_at counter i) d) c ≡ b
      → (scan k key c counter d (i + 1) n ≡ none
          → (j : ℕ) → i + 1 ≤ j
          → j < i + suc n
          → hotp_code k key (counter_at counter j) d ≢ c)
      → (if b then some (counter_at counter i) else scan k key c counter d (i + 1) n) ≡ none
      → (j : ℕ) → i ≤ j
      → j < i + suc n
      → hotp_code k key (counter_at counter j) d ≢ c
  unmatched_step i n true q r h = absurd (ground arith)
  unmatched_step i n false q r h =
      from_later i (i + suc n) (λ j. hotp_code k key (counter_at counter j) d ≢ c)
        (λ e. true_not_false (sym (eq→beq _ _ e) ∙ q)) (r h)

  scan-none :
      (i n : ℕ)
      → scan k key c counter d i n ≡ none
      → (j : ℕ) → i ≤ j
      → j < i + n
      → hotp_code k key (counter_at counter j) d ≢ c
  unfolding scan
  scan-none i zero h = λ j a b. absurd (omega (arith, a, b))
  scan-none i (suc n) h =
      unmatched_step i n _ refl
        (λ g j a b. scan-none (i + 1) n g j a (subst (λ x. j < x) (omega arith) b)) h

-- For a secret that decodes and a number of digits that is supported: a code that is accepted is
-- the code of a counter in the window, and the counter that is returned is the first such.
pub verify_code-Found :
    (k : Crypto) (secret typed key : Bytes) (counter digits d window at : ℕ)
    → decode_secret k secret ≡ some key
    → normalize_digits digits ≡ some d
    → verify_code k secret typed counter digits window ≡ some (some at)
    → Found k key (normalize_code typed) counter d 0 (window + 1) at
unfolding verify_code
verify_code-Found k secret typed key counter digits d window at p q h =
    scan-Found k key (normalize_code typed) counter d 0 (window + 1) at (ground arith)

-- For a secret that decodes and a number of digits that is supported: the code of any counter in
-- the window, typed with separators in it or without, is not rejected.
pub verify_code_accepts :
    (k : Crypto) (secret typed key : Bytes) (counter digits d window j : ℕ)
    → decode_secret k secret ≡ some key
    → normalize_digits digits ≡ some d
    → j ≤ window
    → normalize_code typed ≡ hotp_code k key (counter_at counter j) d
    → verify_code k secret typed counter digits window ≢ some none
unfolding verify_code
verify_code_accepts k secret typed key counter digits d window j p q le e h =
    scan-none k key (normalize_code typed) counter d 0 (window + 1)
      (ground (arith, hotp_code-length k key (counter_at counter j) d)) j (omega arith)
      (omega arith) (sym e)
