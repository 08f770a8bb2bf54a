-- ===== src/Session/Keeps.antt =====
-- Rules for what every handler keeps, whether it ends in a value or in an exception.
use hc_pool.Base.{◌≡◌, refl, Bool, true, false, Option, none, some, if◌then◌else◌}
use hc_pool.Session.State.{World, Client, M, ◌>>=◌, ◌>>◌, bind_result}
use hc_pool.Session.Auth.{from_option}

-- `m` keeps `P` of the session.
abbrev pub Keeps : (Client → Type 0) → {A : Type 0} → M A → Type 0
Keeps P m = (w : World) → P w.client → P (m w).1.client

abbrev pub option_of : {A B : Type 0} → Option A → B → (A → B) → B
option_of o r f = elim o [ none ↦ r | some a ↦ f a ]

module _ (P : Client → Type 0) where
  after_bind :
      {A B : Type 0} (r : Option A × World) (f : A → M B)
      → ((a : A) → Keeps P (f a))
      → P r.1.client
      → P (bind_result r f).1.client
  after_bind (none, w) f k p = p
  after_bind (some a, w) f k p = k a w p

  pub bind_Keeps :
      {A B : Type 0} (m : M A) (f : A → M B)
      → Keeps P m
      → ((a : A) → Keeps P (f a))
      → Keeps P (m >>= f)
  bind_Keeps m f k h w p = after_bind (m w) f h (k w p)

  pub then_Keeps :
      {B : Type 0} (m : M (Unit {0})) (n : M B) → Keeps P m → Keeps P n → Keeps P (m >> n)
  then_Keeps m n k h = bind_Keeps m (λ u. n) k (λ u. h)

  pub if_Keeps :
      {A : Type 0} (b : Bool) (m n : M A) → Keeps P m → Keeps P n → Keeps P (if b then m else n)
  if_Keeps true m n k h = k
  if_Keeps false m n k h = h

  pub option_Keeps :
      {A B : Type 0} (o : Option A) (m : M B) (f : A → M B)
      → Keeps P m
      → ((a : A) → Keeps P (f a))
      → Keeps P (elim o [ none ↦ m | some a ↦ f a ])
  option_Keeps none m f k h = k
  option_Keeps (some a) m f k h = h a

  pub from_option-Keeps : {A : Type 0} (o : Option A) → Keeps P (from_option o)
  from_option-Keeps none w p = p
  from_option-Keeps (some a) w p = p

  pub if_result :
      {A : Type 0} (b : Bool) (r r' : Option A × World)
      → P r.1.client
      → P r'.1.client
      → P (if b then r else r').1.client
  if_result true r r' s s' = s
  if_result false r r' s s' = s'

  pub option_result :
      {A B : Type 0} (o : Option A) (r : Option B × World) (f : A → Option B × World)
      → P r.1.client
      → ((a : A) → P (f a).1.client)
      → P (option_of o r f).1.client
  option_result none r f s t = s
  option_result (some a) r f s t = t a

invert_result :
    {A B : Type 0} (r : Option A × World) (f : A → M B) (b : B) (w' : World)
    → bind_result r f ≡ (some b, w')
    → (a : A) × (r.0 ≡ some a) × (f a r.1 ≡ (some b, w'))
invert_result (none, w) f b w' e = absurd (cc (e))
invert_result (some a, w) f b w' e = (a, refl, e)

-- A chain that ends in a value had one at each step.
pub invert_bind :
    {A B : Type 0} (m : M A) (f : A → M B) (b : B) (w w' : World)
    → (m >>= f) w ≡ (some b, w')
    → (a : A) × ((m w).0 ≡ some a) × (f a (m w).1 ≡ (some b, w'))
invert_bind m f b w w' e = invert_result (m w) f b w' e
