-- ===== src/Arp/Handler/Follows.antt =====
-- Relations between the state before a handler and the state after it, with one rule for each way
-- to build a handler. An invariant `P` is the relation `λ s t. P s → P t`.
use spec_torture.Base.{Bool, true, false, Option, none, some, if◌then◌else◌}
use spec_torture.Arp.Handler.{
  Code, Result, ok, err, Handler, pure, fail, gets, or_fail, modify, guard, continue, undone, ◌>>=◌,
  on_error,
}

pub record IsPreorder {S : Type 0} (R : S → S → Type 0) : Type 0 where
  pub reflexive : (s : S) → R s s
  pub transitive : (s t u : S) → R s t → R t u → R s u

-- Whether it returns or fails, `m` takes each state to a related one.
pub record Follows {S A : Type 0} (R : S → S → Type 0) (m : Handler S A) : Type 0 where
  pub at : (s : S) → R s (m s).1

module _ {S : Type 0} {R : S → S → Type 0} (po : IsPreorder R) where
  pub Follows-pure : {A : Type 0} (a : A) → Follows R (pure a)
  unfolding pure
  Follows-pure a = record { at = po.reflexive }

  pub Follows-fail : {A : Type 0} (c : Code) → Follows R (fail {A = A} c)
  unfolding fail
  Follows-fail c = record { at = po.reflexive }

  pub Follows-gets : {A : Type 0} (f : S → A) → Follows R (gets f)
  unfolding gets
  Follows-gets f = record { at = po.reflexive }

  pub Follows-or_fail : {A : Type 0} (c : Code) (o : Option A) → Follows R (or_fail c o)
  unfolding or_fail
  Follows-or_fail c none = record { at = po.reflexive }
  Follows-or_fail c (some a) = record { at = po.reflexive }

  pub Follows-guard : (b : Bool) (c : Code) → Follows R (guard b c)
  unfolding guard
  Follows-guard true c = record { at = po.reflexive }
  Follows-guard false c = record { at = po.reflexive }

  pub Follows-modify : (f : S → S) → ((s : S) → R s (f s)) → Follows R (modify f)
  unfolding modify
  Follows-modify f h = record { at = h }

  pub Follows-if :
      {A : Type 0} (b : Bool) (m n : Handler S A)
      → Follows R m
      → Follows R n
      → Follows R (if b then m else n)
  Follows-if true m n hm hn = hm
  Follows-if false m n hm hn = hn

  continue_at :
      {A B : Type 0} (f : A → Handler S B) (r : Result A) (t : S)
      → ((a : A) → Follows R (f a))
      → R t (continue f r t).1
  continue_at f (ok a) t hf = (hf a).at t
  continue_at f (err c) t hf = po.reflexive t

  pub Follows-bind :
      {A B : Type 0} (m : Handler S A) (f : A → Handler S B)
      → Follows R m
      → ((a : A) → Follows R (f a))
      → Follows R (m >>= f)
  unfolding ◌>>=◌
  Follows-bind m f hm hf = record {
    at = λ s. let (r, t) = m s in po.transitive s t _ (hm.at s) (continue_at f r t hf);
  }

  undone_at :
      {A : Type 0} (undo : S → S) (r : Result A) (t : S)
      → ((s : S) → R s (undo s))
      → R t (undone undo r t).1
  undone_at undo (ok a) t h = po.reflexive t
  undone_at undo (err c) t h = h t

  pub Follows-on_error :
      {A : Type 0} (undo : S → S) (m : Handler S A)
      → ((s : S) → R s (undo s))
      → Follows R m
      → Follows R (on_error undo m)
  unfolding on_error
  Follows-on_error undo m h hm = record {
    at = λ s. let (r, t) = m s in po.transitive s t _ (hm.at s) (undone_at undo r t h);
  }

pub ruleset follows_rules = (
  Follows-pure, Follows-fail, Follows-gets, Follows-or_fail, Follows-guard, Follows-if,
  Follows-bind,
)
