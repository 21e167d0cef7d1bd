-- ===== src/Arp/Handler/Ensures.antt =====
-- What holds of the result and the state when a handler succeeds. The rules for the steps of a block
-- take the rest of the block along, so that a proof reads as the block does.
use spec_torture.Base.{◌≡◌, refl, subst, Bool, true, false, Option, none, some, if◌then◌else◌}
use spec_torture.Arp.Handler.{
  Code, Result, ok, err, Handler, pure, fail, gets, or_fail, modify, guard, continue, ◌>>=◌, ◌>>◌,
}

abbrev pub Post : {S A : Type 0} → (A → S → Type 0) → Result A → S → Type 0
Post Q (ok a) s = Q a s
Post Q (err c) s = Unit

pub record Ensures {S A : Type 0} (P : S → Type 0) (m : Handler S A) (Q : A → S → Type 0)
    : Type 0 where
  pub at : (s : S) → P s → Post Q (m s).0 (m s).1

module _ {S B : Type 0} {P : S → Type 0} {R : B → S → Type 0} where
  pub Ensures-pure : (b : B) → ((s : S) → P s → R b s) → Ensures P (pure b) R
  unfolding pure
  Ensures-pure b h = record { at = h }

  pub Ensures-fail : (c : Code) → Ensures P (fail {A = B} c) R
  unfolding fail
  Ensures-fail c = record { at = λ s h. tt }

  pub Ensures-if :
      (b : Bool) (m n : Handler S B)
      → (b ≡ true → Ensures P m R)
      → (b ≡ false → Ensures P n R)
      → Ensures P (if b then m else n) R
  Ensures-if true m n hm hn = hm refl
  Ensures-if false m n hm hn = hn refl

  -- a read that ends a block
  pub Ensures-last : (f : S → B) → ((s : S) → P s → R (f s) s) → Ensures P (gets f) R
  unfolding gets
  Ensures-last f h = record { at = h }

module _ {S A B : Type 0} {P : S → Type 0} {R : B → S → Type 0} where
  pub Ensures-gets :
      (f : S → A) (k : A → Handler S B)
      → ((a : A) → Ensures (λ s. P s × (f s ≡ a)) (k a) R)
      → Ensures P (gets f >>= k) R
  unfolding ◌>>=◌
  Ensures-gets f k h = record { at = λ s p. (h (f s)).at s (p, refl) }

  pub Ensures-or_fail :
      (c : Code) (o : Option A) (k : A → Handler S B)
      → ((a : A) → o ≡ some a → Ensures P (k a) R)
      → Ensures P (or_fail c o >>= k) R
  unfolding ◌>>=◌
  Ensures-or_fail c none k h = record { at = λ s p. tt }
  Ensures-or_fail c (some a) k h = record { at = (h a refl).at }

module _ {S A B : Type 0} {Q : A → S → Type 0} {R : B → S → Type 0} where
  ensures_continue :
      (f : A → Handler S B) (r : Result A) (t : S)
      → Post Q r t
      → ((a : A) → Ensures (Q a) (f a) R)
      → Post R (continue f r t).0 (continue f r t).1
  ensures_continue f (ok a) t q h = (h a).at t q
  ensures_continue f (err c) t q h = tt

  pub Ensures-bind :
      {P : S → Type 0} (m : Handler S A) (f : A → Handler S B)
      → Ensures P m Q
      → ((a : A) → Ensures (Q a) (f a) R)
      → Ensures P (m >>= f) R
  unfolding ◌>>=◌
  Ensures-bind m f hm hf = record {
    at = λ s p. let (r, t) = m s in ensures_continue f r t (hm.at s p) hf;
  }

module _ {S B : Type 0} {P : S → Type 0} {R : B → S → Type 0} where
  pub Ensures-guard :
      (b : Bool) (c : Code) (k : Handler S B)
      → (b ≡ true → Ensures P k R)
      → Ensures P (guard b c >> k) R
  unfolding ◌>>=◌
  Ensures-guard true c k h = record { at = (h refl).at }
  Ensures-guard false c k h = record { at = λ s p. tt }

module _ {S : Type 0} {P : S → Type 0} {R : Unit {0} → S → Type 0} where
  pub Ensures-modify : (f : S → S) → ((s : S) → P s → R tt (f s)) → Ensures P (modify f) R
  unfolding modify
  Ensures-modify f h = record { at = h }

  -- a test that ends a block
  pub Ensures-guard_last :
      (b : Bool) (c : Code) → (b ≡ true → (s : S) → P s → R tt s) → Ensures P (guard b c) R
  unfolding guard
  Ensures-guard_last true c h = record { at = h refl }
  Ensures-guard_last false c h = record { at = λ s p. tt }

module _ {S A : Type 0} where
  read-Post :
      (P : S → Type 0) (c : Code) (f : S → Option A) (s : S) (o : Option A)
      → P s
      → f s ≡ o
      → Post (λ a u. P u × (f u ≡ some a)) (or_fail c o s).0 (or_fail c o s).1
  unfolding or_fail
  read-Post P c f s none p e = tt
  read-Post P c f s (some a) p e = (p, e)

  -- a read that may find nothing
  pub Ensures-read :
      {P : S → Type 0} (c : Code) (f : S → Option A)
      → Ensures P (λ s. or_fail c (f s) s) (λ a u. P u × (f u ≡ some a))
  Ensures-read {P} c f = record { at = λ s p. read-Post P c f s (f s) p refl }

  Post-true : (r : Result A) (t : S) → Post (λ _ _. Unit) r t
  Post-true (ok a) t = tt
  Post-true (err c) t = tt

  -- nothing is promised of the result
  pub Ensures-any : {P : S → Type 0} (m : Handler S A) → Ensures P m (λ _ _. Unit)
  Ensures-any m = record { at = λ s p. Post-true (m s).0 (m s).1 }

  Post-run : (x : Result A × S) → Post (λ a u. x ≡ (ok a, u)) x.0 x.1
  Post-run (ok a, t) = refl
  Post-run (err c, t) = tt

  -- from a known state, a success is that of the run from it
  pub Ensures-run : (m : Handler S A) (s : S) → Ensures (λ u. u ≡ s) m (λ a u. m s ≡ (ok a, u))
  Ensures-run m s = record { at = λ u e. rw e (Post-run (m s)) }

  weaken-Post :
      {Q R : A → S → Type 0}
      → ((a : A) (s : S) → Q a s → R a s)
      → (r : Result A) (t : S) → Post Q r t
      → Post R r t
  weaken-Post h (ok a) t q = h a t q
  weaken-Post h (err c) t q = tt

  pub Ensures-weaken :
      {P : S → Type 0} {Q R : A → S → Type 0} {m : Handler S A}
      → ((a : A) (s : S) → Q a s → R a s)
      → Ensures P m Q
      → Ensures P m R
  Ensures-weaken {Q} {R} {m} h e = record {
    at = λ s p. weaken-Post {Q = Q} {R = R} h (m s).0 (m s).1 (e.at s p);
  }

  -- what is known before is known after
  pub Ensures-known :
      {P : S → Type 0} {Q : A → S → Type 0} {m : Handler S A} (F : Type 0)
      → ((s : S) → P s → F)
      → Ensures (λ _. Unit) m Q
      → Ensures P m (λ a t. F × Q a t)
  Ensures-known {Q} {m} F known e = record {
    at = λ s p.
        weaken-Post {Q = Q} {R = λ a t. F × Q a t} (λ a t q. (known s p, q)) (m s).0 (m s).1
          (e.at s tt);
  }

  -- what is ensured holds of an actual success
  pub Ensures-ok :
      {P : S → Type 0} {Q : A → S → Type 0} (m : Handler S A)
      → Ensures P m Q
      → (s t : S) (a : A) → P s
      → m s ≡ (ok a, t)
      → Q a t
  Ensures-ok {Q} m h s t a p e = subst (λ x. Post Q x.0 x.1) e (h.at s p)
