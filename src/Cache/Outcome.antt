-- ===== src/Cache/Outcome.antt =====
-- Code that may throw, over the state of src/multisequence_cache.cpp. What was written before the
-- throw stays written.
use chromo_fold.Prelude.{Bool, true, false, Option, none, some, List, [], ◌∷◌}
use chromo_fold.Cache.Types.{Cache, Error, LayerState}

pub data Outcome (A : Type 0) : Type 0 where
  returns : A → Cache → Outcome A
  throws : Error → Cache → Outcome A

abbrev pub M : Type 0 → Type 0
M A = Cache → Outcome A

infixl 5 ◌>>=◌ ◌>>◌
abbrev pub ◌>>=◌ : {A B : Type 0} → M A → (A → M B) → M B
◌>>=◌ m f c = elim (m c) [ returns a c' ↦ f a c' | throws e c' ↦ throws e c' ]

abbrev pub ◌>>◌ : {B : Type 0} → M (Unit {0}) → M B → M B
m >> k = m >>= λ _. k

abbrev pub pure : {A : Type 0} → A → M A
pure a c = returns a c

abbrev pub throw : {A : Type 0} → Error → M A
throw e c = throws e c

abbrev pub get : M Cache
get c = returns c c

abbrev pub put : Cache → M (Unit {0})
put c' c = returns tt c'

abbrev pub require : {A : Type 0} → Error → Option A → M A
require e none c = throws e c
require e (some a) c = returns a c

-- if (test) throw e;
abbrev pub refuse : Bool → Error → M (Unit {0})
refuse true e c = throws e c
refuse false e c = returns tt c

-- The `int` that a call returns, 0 or -1.
pub data Status : Type 0 where
  success failure : Status

-- try { ...; last_error.clear(); return 0; } catch { set_error; return -1; }
abbrev pub attempt : M (Unit {0}) → Cache → Cache × Status
attempt m c = elim (m c) [
  | returns _ c' ↦ (record c' { last_error = none }, success)
  | throws e c' ↦ (record c' { last_error = some e }, failure)
]

-- A loop that writes in place: at a throw, with what it had written.
pub data Pass (A : Type 0) : Type 0 where
  passes : A → Cache → Pass A
  stops : Error → A → Cache → Pass A

abbrev pub pass_map : {A B : Type 0} → (A → B) → Pass A → Pass B
pass_map f (passes a c) = passes (f a) c
pass_map f (stops e a c) = stops e (f a) c

-- for (auto & layer : layers)
unfoldable pub each_layer :
    (LayerState → Cache → Pass LayerState) → List LayerState → Cache → Pass (List LayerState)
each_layer f [] c = passes [] c
each_layer f (l ∷ ls) c = elim (f l c) [
  | passes l' c' ↦ pass_map (λ rest. l' ∷ rest) (each_layer f ls c')
  | stops e l' c' ↦ stops e (l' ∷ ls) c'
]

-- A caller's test of the result.
abbrev pub cache_ok : Status → Bool
cache_ok success = true
cache_ok failure = false
