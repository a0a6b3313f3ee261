-- ===== src/Prelude/Invariants.antt =====
-- Invariants of actions, one rule for each way to build an action.
use mathlib.Core.Path.{◌≡◌, refl}
use mathlib.Core.Bool.{Bool, true, false}
use observable_url_shortener.Prelude.Tests.{if◌then◌else◌}
use observable_url_shortener.Prelude.Effects.{
  Error, Result, ok, err, Action, pure, raise, lift, continue, ◌>>=◌, recover, catch,
}

-- Whether `m` returns or raises, it leaves a state with `P` if it starts in one.
pub record Preserves {S A : Type 0} (P : S → Type 0) (m : Action S A) : Type 0 where
  pub after : (s : S) → P s → P (m s).1

module _ {S A : Type 0} {P : S → Type 0} where
  pub Preserves-pure : (a : A) → Preserves P (pure a)
  unfolding pure
  Preserves-pure a = record { after = λ s h. h }

  pub Preserves-raise : (e : Error) → Preserves P (raise {A = A} e)
  unfolding raise
  Preserves-raise e = record { after = λ s h. h }

  pub Preserves-lift : (r : Result A) → Preserves P (lift r)
  unfolding lift
  Preserves-lift r = record { after = λ s h. h }

  pub Preserves-if :
      (b : Bool) (m n : Action S A)
      → Preserves P m
      → Preserves P n
      → Preserves P (if b then m else n)
  Preserves-if true m n pm pn = pm
  Preserves-if false m n pm pn = pn

module _ {S A B : Type 0} {P : S → Type 0} where
  continue_after :
      (r : Result A) (f : A → Action S B) (s : S)
      → ((a : A) → Preserves P (f a))
      → P s
      → P (continue r f s).1
  continue_after (ok a) f s pf h = (pf a).after s h
  continue_after (err e) f s pf h = h

  pub Preserves-bind :
      (m : Action S A) (f : A → Action S B)
      → Preserves P m
      → ((a : A) → Preserves P (f a))
      → Preserves P (m >>= f)
  unfolding ◌>>=◌
  Preserves-bind m f pm pf = record {
    after = λ s h. continue_after (m s).0 f (m s).1 pf (pm.after s h);
  }

module _ {S A : Type 0} {P : S → Type 0} where
  catch_after :
      (r : Result A) (handler : Error → Action S A) (s : S)
      → ((e : Error) → Preserves P (handler e))
      → P s
      → P (recover r handler s).1
  catch_after (ok a) handler s pe h = h
  catch_after (err e) handler s pe h = (pe e).after s h

  pub Preserves-catch :
      (m : Action S A) (handler : Error → Action S A)
      → Preserves P m
      → ((e : Error) → Preserves P (handler e))
      → Preserves P (catch m handler)
  unfolding catch
  Preserves-catch m handler pm pe = record {
    after = λ s h. catch_after (m s).0 handler (m s).1 pe (pm.after s h);
  }

module _ {S A B : Type 0} {P : S → Type 0} where
  continue_when :
      (r : Result A) (f : A → Action S B) (s : S)
      → ((a : A) → r ≡ ok a → Preserves P (f a))
      → P s
      → P (continue r f s).1
  continue_when (ok a) f s pf h = (pf a refl).after s h
  continue_when (err e) f s pf h = h

  -- The rest of a block may use what the first action returned in a state with `P`.
  pub Preserves-bind_when :
      (m : Action S A) (f : A → Action S B)
      → Preserves P m
      → ((a : A) (s : S) → P s → (m s).0 ≡ ok a → Preserves P (f a))
      → Preserves P (m >>= f)
  unfolding ◌>>=◌
  Preserves-bind_when m f pm pf = record {
    after = λ s h. continue_when (m s).0 f (m s).1 (λ a e. pf a s h e) (pm.after s h);
  }

pub ruleset preserves_rules =
    (Preserves-pure, Preserves-raise, Preserves-lift, Preserves-if, Preserves-bind, Preserves-catch)
