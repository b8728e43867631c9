-- ===== src/Store/Steps.antt =====
-- Chains of transaction steps on the store of store.go.
use amsonia_core.Base.{
  Bool, true, false, if◌then◌else◌, ◌≡◌, refl, subst, Bool-cases, inl, inr, arith,
}
use amsonia_core.Types.Errors.{Result, ok, err}
use amsonia_core.Store.{Tx, pure, lift, ◌>>=◌}

-- A chain that succeeds is a first step that succeeds, and then the rest.
pub bind-ok :
    {S A B : Type 0} (m : Tx S A) (f : A → Tx S B) {s : S} {b : B} {s'' : S}
    → (m >>= f) s ≡ ok (b, s'')
    → (a : A) × (s' : S) × (m s ≡ ok (a, s')) × (f a s' ≡ ok (b, s''))
unfolding ◌>>=◌
bind-ok {S} {A} {B} m f {s} {b} {s''} e = split (m s) refl
  where
    split :
        (r : Result (A × S))
        → m s ≡ r
        → (a : A) × (s' : S) × (m s ≡ ok (a, s')) × (f a s' ≡ ok (b, s''))
    split (ok p) h = (p.0, p.1, h, ground (arith, h, e))
    split (err x) h = ground (arith, h, e)

pub lift-ok :
    {S A : Type 0} (r : Result A) {s s' : S} {a : A} → lift r s ≡ ok (a, s') → (r ≡ ok a) × (s' ≡ s)
unfolding lift
lift-ok (ok b) e = (ground arith, ground arith)
lift-ok (err x) e = cc

-- Where the step succeeds on a state with `I`, it leaves a state with `J`.
abbrev pub Takes : {S A : Type 0} → (S → Type 0) → (S → Type 0) → Tx S A → Type 0
Takes {S} {A} I J m = (s : S) (a : A) (s' : S) → m s ≡ ok (a, s') → I s → J s'

pub Takes-bind :
    {S A B : Type 0} (I J K : S → Type 0) (m : Tx S A) (f : A → Tx S B)
    → Takes I J m
    → ((a : A) → Takes J K (f a))
    → Takes I K (m >>= f)
Takes-bind I J K m f first rest s b s'' e h =
    let (a, s', step, after) = bind-ok m f e in rest a s' b s'' after (first s a s' step h)

pub Takes-if :
    {S A : Type 0} (I J : S → Type 0) (b : Bool) (m n : Tx S A)
    → Takes I J m
    → Takes I J n
    → Takes I J (if b then m else n)
Takes-if I J true m n hm hn = hm
Takes-if I J false m n hm hn = hn

module _ {S : Type 0} (I : S → Type 0) where
  -- Where the step succeeds, it leaves a state with `I` with `I`.
  abbrev pub Keeps : {A : Type 0} → Tx S A → Type 0
  Keeps m = Takes I I m

  pub Keeps-pure : {A : Type 0} (a : A) → Keeps (pure a)
  unfolding pure
  Keeps-pure a s b s' e h = ground arith

  pub Keeps-lift : {A : Type 0} (r : Result A) → Keeps (lift r)
  unfolding lift
  Keeps-lift (ok a) s b s' e h = ground arith
  Keeps-lift (err x) s b s' e h = ground arith

  pub Keeps-bind :
      {A B : Type 0} (m : Tx S A) (f : A → Tx S B)
      → Keeps m
      → ((a : A) → Keeps (f a))
      → Keeps (m >>= f)
  Keeps-bind = Takes-bind I I I

  pub Keeps-if :
      {A : Type 0} (b : Bool) (m n : Tx S A) → Keeps m → Keeps n → Keeps (if b then m else n)
  Keeps-if = Takes-if I I

-- A step that keeps `I`, and answers with what has `Q`.
module _ {S A : Type 0} (I : S → Type 0) (Q : A → Type 0) where
  abbrev pub Yields : Tx S A → Type 0
  Yields m = (s : S) (a : A) (s' : S) → m s ≡ ok (a, s') → I s → I s' × Q a

  pub Yields-bind :
      {B : Type 0} (m : Tx S A) (f : A → Tx S B)
      → Yields m
      → ((a : A) → Q a → Keeps I (f a))
      → Keeps I (m >>= f)
  Yields-bind m f first rest s b s'' e h =
      let (a, s', step, after) = bind-ok m f e in
      let (kept, q) = first s a s' step h in rest a q s' b s'' after kept

-- A change that leaves `J`, after which the rest brings `I` back; without a change nothing is lost.
pub Keeps-change :
    {S A B : Type 0} (I J : S → Type 0) (m : Tx S A) (is_changed : A → Bool)
    (then_do or_do : A → Tx S B)
    → Takes I J m
    → ((a : A) (s s' : S) → m s ≡ ok (a, s') → is_changed a ≡ false → s ≡ s')
    → ((a : A) → Takes J I (then_do a))
    → ((a : A) → Keeps I (or_do a))
    → Keeps I (m >>= λ a. if is_changed a then then_do a else or_do a)
Keeps-change I J m is_changed then_do or_do first idle after otherwise s b s'' e h =
    let (a, s', step, rest) = bind-ok m (λ a. if is_changed a then then_do a else or_do a) e in
    elim (Bool-cases (is_changed a)) [
      | inl yes_changed ↦ after a s' b s'' (ground (arith, yes_changed, rest)) (first s a s' step h)
      | inr unchanged ↦
          otherwise a s' b s'' (ground (arith, unchanged, rest))
            (subst I (idle a s s' step unchanged) h)
    ]
