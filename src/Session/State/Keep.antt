-- ===== src/Session/State/Keep.antt =====
-- Rules for what a method leaves behind, on success and on error alike.
use mygosh.Base.{ℕ, ◌≡◌, refl, Bool, true, false, Option, none, some, if◌then◌else◌, Option-cases}
use mygosh.Base.{inl, inr}
use mygosh.Base.Maps.{lookup}
use mygosh.Session.Error.{Err, nil_pointer}
use mygosh.Session.Channel.{Channel}
use mygosh.Session.State.{
  Session, Outcome, ok, err, final, M, ◌>>=◌, ◌>>◌, pure, throw, done, get, modify, fail_if, catch,
  on_error, load, on_channel,
}

pub Outcome-cases {ℓ κ} :
    {A : Type ℓ} (P : Outcome A → Type κ) (o : Outcome A)
    → ((a : A) (t : Session) → o ≡ ok a t → P (ok a t))
    → ((e : Err) (t : Session) → o ≡ err e t → P (err e t))
    → P o
Outcome-cases P (ok a t) f g = f a t refl
Outcome-cases P (err e t) f g = g e t refl

module _ {ℓ} (P : Session → Type ℓ) where
  pub keep_channel {κ} :
      {A : Type κ} (id : ℕ) (s : Session) (k : Channel → Outcome A)
      → P s
      → ((ch : Channel) → lookup id s.heap ≡ some ch → P (final (k ch)))
      → P (final (on_channel id s k))
  unfolding on_channel
  keep_channel id s k h next = elim (Option-cases (lookup id s.heap)) [
    | inl e ↦ rw (e, final) h
    | inr (ch, e) ↦ rw (e, final) (next ch e)
  ]

  pub keep_if {κ} :
      {A : Type κ} (b : Bool) (e : Err) (s : Session) (o : Outcome A)
      → P s
      → (b ≡ false → P (final o))
      → P (final (if b then err e s else o))
  keep_if true e s o h next = h
  keep_if false e s o h next = next refl

  pub keep_then {κ λ'} :
      {A : Type κ} {B : Type λ'} (m : M A) (k : A → M B) (s : Session)
      → ((e : Err) (t : Session) → m s ≡ err e t → P t)
      → ((a : A) (t : Session) → m s ≡ ok a t → P (final (k a t)))
      → P (final ((m >>= k) s))
  keep_then {A} {B} m k s failed next = go (m s) failed next
    where
      go :
          (o : Outcome A)
          → ((e : Err) (t : Session) → o ≡ err e t → P t)
          → ((a : A) (t : Session) → o ≡ ok a t → P (final (k a t)))
          → P (final (elim o [ ok a t ↦ k a t | err e t ↦ err e t ]))
      go (ok a t) failed next = next a t refl
      go (err e t) failed next = failed e t refl

  pub keep_branch {κ} :
      {A : Type κ} (b : Bool) (o r : Outcome A)
      → P (final o)
      → P (final r)
      → P (final (if b then o else r))
  keep_branch true o r ho hr = ho
  keep_branch false o r ho hr = hr

  -- The same, with what the test says; of outcomes, and of methods.
  pub keep_cases {κ} :
      {A : Type κ} (b : Bool) (o r : Outcome A)
      → (b ≡ true → P (final o))
      → (b ≡ false → P (final r))
      → P (final (if b then o else r))
  keep_cases true o r ho hr = ho refl
  keep_cases false o r ho hr = hr refl

  pub keep_cases_at {κ} :
      {A : Type κ} (b : Bool) (m n : M A) (s : Session)
      → (b ≡ true → P (final (m s)))
      → (b ≡ false → P (final (n s)))
      → P (final ((if b then m else n) s))
  keep_cases_at true m n s hm hn = hm refl
  keep_cases_at false m n s hm hn = hn refl

  -- A read of a channel, and a guard, before the rest of a method.
  pub keep_load {κ} :
      {B : Type κ} (id : ℕ) (k : Channel → M B) (s : Session)
      → P s
      → ((ch : Channel) → lookup id s.heap ≡ some ch → P (final (k ch s)))
      → P (final ((load id >>= k) s))
  unfolding load on_channel
  keep_load {B} id k s h next = go (lookup id s.heap) next
    where
      go :
          (o : Option Channel)
          → ((ch : Channel) → o ≡ some ch → P (final (k ch s)))
          → P (
              final
                (elim (elim o as (λ x. Outcome Channel) [
                  | none ↦ err nil_pointer s
                  | some ch ↦ ok ch s
                ]) [ ok a t ↦ k a t | err e t ↦ err e t ]))
      go none next = h
      go (some ch) next = next ch refl

  pub keep_guard {κ} :
      {B : Type κ} (bad : Bool) (e : Err) (k : M B) (s : Session)
      → P s
      → (bad ≡ false → P (final (k s)))
      → P (final ((fail_if bad e >> k) s))
  keep_guard true e k s h next = h
  keep_guard false e k s h next = next refl

  pub keep_either_case :
      (b : Bool) (s t : Session) → (b ≡ true → P s) → P t → P (if b then s else t)
  keep_either_case true s t hs ht = hs refl
  keep_either_case false s t hs ht = ht

  pub keep_either : (b : Bool) (s t : Session) → P s → P t → P (if b then s else t)
  keep_either true s t hs ht = hs
  keep_either false s t hs ht = ht

-- What a method keeps, in every state.
unfoldable pub Keeps {ℓ κ} : {A : Type ℓ} → (Session → Type κ) → M A → Type κ
Keeps P m = (s : Session) → P s → P (final (m s))

pub Keeps-bind {ℓ κ λ'} :
    {A : Type ℓ} {B : Type κ} (P : Session → Type λ') (m : M A) (k : A → M B)
    → Keeps P m
    → ((a : A) → Keeps P (k a))
    → Keeps P (m >>= k)
unfolding Keeps
Keeps-bind {A} {B} P m k hm hk s h = go (m s) (hm s h)
  where
    go : (o : Outcome A) → P (final o) → P (final (elim o [ ok a t ↦ k a t | err e t ↦ err e t ]))
    go (ok a t) p = hk a t p
    go (err e t) p = p

module _ {ℓ} (P : Session → Type ℓ) where
  pub Keeps-pure {κ} : {A : Type κ} (a : A) → Keeps P (pure a)
  unfolding Keeps
  Keeps-pure a s h = h

  pub Keeps-throw {κ} : (A : Type κ) (e : Err) → Keeps P (throw {A = A} e)
  unfolding Keeps
  Keeps-throw A e s h = h

  pub Keeps-done : Keeps P done
  unfolding Keeps
  Keeps-done s h = h

  pub Keeps-get {κ} :
      {B : Type κ} (k : Session → M B) → ((s : Session) → Keeps P (k s)) → Keeps P (get >>= k)
  unfolding Keeps
  Keeps-get k hk s h = hk s s h

  pub Keeps-modify : (f : Session → Session) → ((s : Session) → P s → P (f s)) → Keeps P (modify f)
  unfolding Keeps
  Keeps-modify f hf s h = hf s h

  pub Keeps-fail_if : (b : Bool) (e : Err) → Keeps P (fail_if b e)
  unfolding Keeps
  Keeps-fail_if true e s h = h
  Keeps-fail_if false e s h = h

  pub Keeps-load : (id : ℕ) → Keeps P (load id)
  unfolding Keeps load
  Keeps-load id s h = keep_channel P id s _ h λ ch e. h

  pub Keeps-if {κ} :
      {A : Type κ} (b : Bool) (m n : M A) → Keeps P m → Keeps P n → Keeps P (if b then m else n)
  Keeps-if true m n hm hn = hm
  Keeps-if false m n hm hn = hn

  pub Keeps-catch {κ} :
      {A : Type κ} (m : M A) (h : Err → M A)
      → Keeps P m
      → ((e : Err) → Keeps P (h e))
      → Keeps P (catch m h)
  unfolding Keeps
  Keeps-catch {A} m handler hm hh s h = go (m s) (hm s h)
    where
      go :
          (o : Outcome A)
          → P (final o)
          → P (final (elim o [ ok a t ↦ ok a t | err e t ↦ handler e t ]))
      go (ok a t) p = p
      go (err e t) p = hh e t p

  pub Keeps-on_error {κ λ'} :
      {A : Type κ} {B : Type λ'} (m : M A) (h : Err → M B) (k : A → M B)
      → Keeps P m
      → ((e : Err) → Keeps P (h e))
      → ((a : A) → Keeps P (k a))
      → Keeps P (on_error m h k)
  unfolding Keeps
  Keeps-on_error {A} m handler k hm hh hk s h = go (m s) (hm s h)
    where
      go :
          (o : Outcome A)
          → P (final o)
          → P (final (elim o [ ok a t ↦ k a t | err e t ↦ handler e t ]))
      go (ok a t) p = hk a t p
      go (err e t) p = hh e t p

pub ruleset keep_rules = (
  Keeps-bind, Keeps-pure, Keeps-throw, Keeps-done, Keeps-get, Keeps-modify, Keeps-fail_if,
  Keeps-load, Keeps-if, Keeps-catch, Keeps-on_error,
)
