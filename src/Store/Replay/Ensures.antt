-- ===== src/Store/Replay/Ensures.antt =====
-- What a call that succeeds leaves behind, step by step.
use gu_gu_manager.Base.{◌≡◌, refl, sym, subst, Bool, true, false, arith, if◌then◌else◌}
use gu_gu_manager.Base.Maps.{Assoc}
use gu_gu_manager.Store.Types.{Operation, Problem, Memory}
use gu_gu_manager.Store.Exec.{Result, ok, err, continue, Exec, pure, raise, gets, ◌>>=◌}
use gu_gu_manager.Store.Exclusion.Queue.{Still}

-- From a memory with `P`, a success with `a` leaves a memory with `Q a`.
pub record Ensures {A : Type 0} (P : Memory → Type 0) (call : Exec A) (Q : A → Memory → Type 0)
    : Type 0 where
  pub at : (m : Memory) → P m → (a : A) → (call m).0 ≡ ok a → Q a (call m).1

pub ok_injective : {A : Type 0} (a b : A) → ok a ≡ ok b → a ≡ b
ok_injective a b e = cc

module _ {A : Type 0} where
  pub Ensures-pure :
      (P : Memory → Type 0) (Q : A → Memory → Type 0) (a : A)
      → ((m : Memory) → P m → Q a m)
      → Ensures P (pure a) Q
  unfolding pure
  Ensures-pure P Q a h = record { at = λ m p b e. subst (λ c. Q c m) (ok_injective a b e) (h m p) }

  pub Ensures-raise :
      (P : Memory → Type 0) (Q : A → Memory → Type 0) (p : Problem) → Ensures P (raise p) Q
  unfolding raise
  Ensures-raise P Q p = record { at = λ m h a e. absurd (ground arith) }

  pub Ensures-gets :
      (P : Memory → Type 0) (Q : A → Memory → Type 0) (f : Memory → A)
      → ((m : Memory) → P m → Q (f m) m)
      → Ensures P (gets f) Q
  unfolding gets
  Ensures-gets P Q f h = record {
    at = λ m p b e. subst (λ c. Q c m) (ok_injective (f m) b e) (h m p);
  }

  pub Ensures-if :
      (P : Memory → Type 0) (Q : A → Memory → Type 0) (b : Bool) (x y : Exec A)
      → Ensures P x Q
      → Ensures P y Q
      → Ensures P (if b then x else y) Q
  Ensures-if P Q true x y p q = p
  Ensures-if P Q false x y p q = q

  -- A step that leaves the operations alone keeps what is known of them.
  pub Ensures-Still :
      (P : Assoc Operation → Type 0) (x : Exec A)
      → Still x
      → Ensures (λ m. P m.operations) x (λ a m. P m.operations)
  Ensures-Still P x s = record { at = λ m p a e. subst P (sym (s.at m)) p }

module _ {A B : Type 0} (P : Memory → Type 0) (R : A → Memory → Type 0)
    (Q : B → Memory → Type 0) where
  continue-Ensures :
      (r : Result A) (f : A → Exec B) (m : Memory)
      → ((a : A) → r ≡ ok a → R a m)
      → ((a : A) → Ensures (R a) (f a) Q)
      → (b : B) → (continue r f m).0 ≡ ok b
      → Q b (continue r f m).1
  continue-Ensures (ok a) f m h q b e = (q a).at m (h a refl) b e
  continue-Ensures (err p) f m h q b e = absurd (ground arith)

  pub Ensures-bind :
      (x : Exec A) (f : A → Exec B)
      → Ensures P x R
      → ((a : A) → Ensures (R a) (f a) Q)
      → Ensures P (x >>= f) Q
  unfolding ◌>>=◌
  Ensures-bind x f p q = record {
    at = λ m h b e. continue-Ensures (x m).0 f (x m).1 (p.at m h) q b e;
  }
