-- ===== src/Session/State/Invert.antt =====
-- What an outcome of a method says of its parts, and which methods leave the session as it was
-- when they fail.
use mygosh.Base.{ℕ, ◌≡◌, refl, ap, ◌∙◌, sym, subst, Bool, true, false, some, arith}
use mygosh.Base.Maps.{lookup, member}
use mygosh.Session.Error.{Err}
use mygosh.Session.Channel.{Channel}
use mygosh.Session.Registry.{find_channel}
use mygosh.Session.State.{
  Session, Outcome, ok, err, final, M, ◌>>=◌, ◌>>◌, fail_if, throw, catch, load, on_channel, store,
}

pub bind-ok {ℓ κ} :
    {A : Type ℓ} {B : Type κ} (m : M A) (k : A → M B) (s t : Session) (b : B)
    → (m >>= k) s ≡ ok b t
    → (a : A) × (u : Session) × (m s ≡ ok a u) × (k a u ≡ ok b t)
bind-ok {A} {B} m k s t b h = go (m s) refl h
  where
    go :
        (o : Outcome A)
        → m s ≡ o
        → elim o [ ok a u ↦ k a u | err e u ↦ err e u ] ≡ ok b t
        → (a : A) × (u : Session) × (m s ≡ ok a u) × (k a u ≡ ok b t)
    go (ok a u) e r = (a, u, e, r)
    go (err e u) _ r = grind arith

pub fail_if-ok :
    (b : Bool) (e : Err) (s t : Session) (a : Unit {0})
    → fail_if b e s ≡ ok a t
    → (b ≡ false) × (t ≡ s)
fail_if-ok true e s t a h = grind arith
fail_if-ok false e s t a h = (refl, grind arith)

pub load-ok :
    (id : ℕ) (s t : Session) (ch : Channel)
    → load id s ≡ ok ch t
    → (lookup id s.heap ≡ some ch) × (t ≡ s)
unfolding load on_channel
load-ok id s t ch h = ground arith

pub find_channel-ok :
    (id : ℕ) (s t : Session) (ch : Channel)
    → find_channel id s ≡ ok ch t
    → (member id s.channels ≡ true) × (lookup id s.heap ≡ some ch) × (t ≡ s)
unfolding find_channel load on_channel
find_channel-ok id s t ch h = ground arith

-- A method that changes nothing, and one that changes nothing when it fails.
unfoldable pub IsReader {ℓ} : {A : Type ℓ} → M A → Type 0
IsReader m = (s : Session) → final (m s) ≡ s

unfoldable pub IsAtomic {ℓ} : {A : Type ℓ} → M A → Type ℓ
IsAtomic m = (s t : Session) (e : Err) → m s ≡ err e t → t ≡ s

pub Reader-find : (id : ℕ) → IsReader (find_channel id)
unfolding IsReader find_channel load on_channel
Reader-find id s = ground arith

pub Reader-load : (id : ℕ) → IsReader (load id)
unfolding IsReader load on_channel
Reader-load id s = ground arith

pub Reader-fail_if : (b : Bool) (e : Err) → IsReader (fail_if b e)
unfolding IsReader
Reader-fail_if true e s = refl
Reader-fail_if false e s = refl

pub Atomic-throw {ℓ} : (A : Type ℓ) (e : Err) → IsAtomic (throw {A = A} e)
unfolding IsAtomic
Atomic-throw A e s t e' h = grind arith

pub Atomic-store : (id : ℕ) (f : Channel → Channel) → IsAtomic (store id f)
unfolding IsAtomic
Atomic-store id f s t e h = grind arith

pub Atomic-bind {ℓ κ} :
    {A : Type ℓ} {B : Type κ} (m : M A) (k : A → M B)
    → IsReader m
    → ((a : A) → IsAtomic (k a))
    → IsAtomic (m >>= k)
unfolding IsReader IsAtomic
Atomic-bind {A} {B} m k hm hk s t e h = go (m s) (hm s) h
  where
    go :
        (o : Outcome A)
        → final o ≡ s
        → elim o [ ok a u ↦ k a u | err e u ↦ err e u ] ≡ err e t
        → t ≡ s
    go (ok a u) same r = rw (sym same) (hk a u t e r)
    go (err e' u) same r = grind arith

pub Atomic-last {ℓ} :
    {A : Type ℓ} (m : M A) (id : ℕ) (f : Channel → Channel)
    → IsAtomic m
    → IsAtomic (m >>= λ _. store id f)
unfolding IsAtomic
Atomic-last {A} m id f hm s t e h = go (m s) refl h
  where
    go :
        (o : Outcome A)
        → m s ≡ o
        → elim o [ ok a u ↦ store id f u | err e u ↦ err e u ] ≡ err e t
        → t ≡ s
    go (ok a u) _ r = grind arith
    go (err e' u) q r = hm s t e (grind arith)

pub ruleset atomic_rules =
    (Reader-find, Reader-load, Reader-fail_if, Atomic-throw, Atomic-store, Atomic-bind, Atomic-last)

-- A guard, and a read, before the rest of a method.
pub guard-ok {κ} :
    {B : Type κ} (bad : Bool) (e : Err) (k : M B) (s t : Session) (b : B)
    → (fail_if bad e >> k) s ≡ ok b t
    → (bad ≡ false) × (k s ≡ ok b t)
guard-ok true e k s t b h = grind arith
guard-ok false e k s t b h = (refl, h)

pub find-ok {κ} :
    {B : Type κ} (id : ℕ) (k : Channel → M B) (s t : Session) (b : B)
    → (find_channel id >>= k) s ≡ ok b t
    → (ch : Channel) × (member id s.channels ≡ true)
      × (lookup id s.heap ≡ some ch)
      × (k ch s ≡ ok b t)
find-ok id k s t b h =
    let (ch, u, found, rest) = bind-ok (find_channel id) k s t b h in
    let (registered, here, same) = find_channel-ok id s u ch found in
    (ch, registered, here, subst (λ u. k ch u ≡ ok b t) same rest)

pub load_then-ok {κ} :
    {B : Type κ} (id : ℕ) (k : Channel → M B) (s t : Session) (b : B)
    → (load id >>= k) s ≡ ok b t
    → (ch : Channel) × (lookup id s.heap ≡ some ch) × (k ch s ≡ ok b t)
load_then-ok id k s t b h =
    let (ch, u, found, rest) = bind-ok (load id) k s t b h in
    let (here, same) = load-ok id s u ch found in (ch, here, subst (λ u. k ch u ≡ ok b t) same rest)

pub guard-passes {κ} :
    {B : Type κ} (bad : Bool) (e : Err) (k : M B) (s : Session)
    → bad ≡ false
    → (fail_if bad e >> k) s ≡ k s
guard-passes true e k s h = grind arith
guard-passes false e k s h = refl

find_channel-known :
    (id : ℕ) (s : Session) (ch : Channel)
    → member id s.channels ≡ true
    → lookup id s.heap ≡ some ch
    → find_channel id s ≡ ok ch s
unfolding find_channel load on_channel
find_channel-known id s ch registered found = ground arith

pub find-passes {κ} :
    {B : Type κ} (id : ℕ) (k : Channel → M B) (s : Session) (ch : Channel)
    → member id s.channels ≡ true
    → lookup id s.heap ≡ some ch
    → (find_channel id >>= k) s ≡ k ch s
find-passes {B} id k s ch registered found =
    ap (λ (o : Outcome Channel). elim o [ ok a u ↦ k a u | err e u ↦ err e u ])
      (find_channel-known id s ch registered found)

-- A handler that hands on the error hides no failure.
pub catch-ok {ℓ} :
    {A : Type ℓ} (m : M A) (undo : Err → M (Unit {0})) (s t : Session) (a : A)
    → catch m (λ e. undo e >> throw e) s ≡ ok a t
    → m s ≡ ok a t
catch-ok {A} m undo s t a h = go (m s) refl h
  where
    fails :
        (e : Err) (o : Outcome (Unit {0}))
        → elim o [ ok a u ↦ err e u | err x u ↦ err x u ] ≡ ok a t
        → m s ≡ ok a t
    fails e (ok x u) r = grind arith
    fails e (err x u) r = grind arith

    go :
        (o : Outcome A)
        → m s ≡ o
        → elim o [ ok a u ↦ ok a u | err e u ↦ (undo e >> throw e) u ] ≡ ok a t
        → m s ≡ ok a t
    go (ok x u) e r = e ∙ r
    go (err e u) q r = fails e (undo e u) r

pub load-err : (id : ℕ) (s t : Session) (e : Err) → load id s ≡ err e t → t ≡ s
unfolding load on_channel
load-err id s t e h = ground arith

pub guard-refuses {κ} :
    {B : Type κ} (bad : Bool) (e : Err) (k : M B) (s : Session)
    → bad ≡ true
    → (fail_if bad e >> k) s ≡ err e s
guard-refuses true e k s h = refl
guard-refuses false e k s h = grind arith

load-known :
    (id : ℕ) (s : Session) (ch : Channel) → lookup id s.heap ≡ some ch → load id s ≡ ok ch s
unfolding load on_channel
load-known id s ch found = ground arith

pub load-passes {κ} :
    {B : Type κ} (id : ℕ) (k : Channel → M B) (s : Session) (ch : Channel)
    → lookup id s.heap ≡ some ch
    → (load id >>= k) s ≡ k ch s
load-passes {B} id k s ch found =
    ap (λ (o : Outcome Channel). elim o [ ok a u ↦ k a u | err e u ↦ err e u ])
      (load-known id s ch found)

pub bind-err {ℓ κ} :
    {A : Type ℓ} {B : Type κ} (m : M A) (k : A → M B) (s t : Session) (e : Err)
    → m s ≡ err e t
    → (m >>= k) s ≡ err e t
bind-err {A} {B} m k s t e h =
    ap (λ (o : Outcome A). elim o as (λ x. Outcome B) [ ok a u ↦ k a u | err e u ↦ err e u ]) h
