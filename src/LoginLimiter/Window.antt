-- ===== src/LoginLimiter/Window.antt =====
-- panel/internal/api/login_limiter.go: what becomes of the entry of an account while its window runs.
use vps_panel.Prelude.{
  ℕ, suc, ◌≤◌, ◌<◌, ◌+◌, ◌≡◌, refl, sym, ap, ◌∙◌, subst, Bool, true, false, Option, none, some,
  List, [], ◌∷◌, arith, find_first, Bool-cases, ◌&&◌, ◌||◌, not, ltb, length, inl, inr,
}
use vps_panel.Prelude.Int.{pos, leb_ℤ}
use vps_panel.Prelude.Text.{Text, text_eq, text_eq_iff}
use vps_panel.Prelude.Tables.{delete_where, upsert, find_first-upsert}
use vps_panel.LoginLimiter.{
  max_pair_entries, AttemptKey, Failure, Limiter, failure_of, failure_window, is_missing, is_over,
  is_pair, key_of, next_login_failure, prune_expired, put, record_failure, remaining_login_window,
  retry_after, counted,
}

-- What an account has failed, as it is stored.
abbrev pub entry : Limiter → AttemptKey → Failure
entry l k = failure_of (find_first (is_pair k) l.pair_failures)

abbrev pub tried : Limiter → Text → Text → Failure
tried l ip username = entry l (key_of ip username)

abbrev pub IsRunning : Failure → ℕ → Type 0
IsRunning f now = (1 ≤ f.count) × (now < failure_window + f.started_at)

find_first-delete_where-skip :
    {A : Type 0} (p q : A → Bool) (xs : List A) {a : A}
    → find_first p xs ≡ some a
    → q a ≡ false
    → find_first p (delete_where q xs) ≡ some a
unfolding find_first delete_where
find_first-delete_where-skip p q [] e skip = cc
find_first-delete_where-skip p q (x ∷ xs) {a} e skip = elim (Bool-cases (p x)) [
  | inl hit ↦
      let here : x ≡ a = ground arith in
      let out : q x ≡ false = rw here skip in rw (out, hit) (ap some here)
  | inr miss ↦ ground (arith, find_first-delete_where-skip p q xs {a = a})
]

find_first-put :
    {A : Type 0} (p : A → Bool) (new : A) (limit : ℕ) (xs : List A) {a : A}
    → p new ≡ true
    → find_first p xs ≡ some a
    → find_first p (put p new limit xs) ≡ some new
find_first-put p new limit xs {a} own e =
    rw e (find_first-upsert p (λ _. new) new (λ x h. own) own xs ∙ rw e refl)

is_over-IsRunning : (f : Failure) (now : ℕ) → IsRunning f now → is_over f now ≡ false
unfolding remaining_login_window
is_over-IsRunning f now h = ground arith

is_pair_refl : (k : AttemptKey) (f : Failure) → is_pair k (k, f) ≡ true
is_pair_refl k f =
    ground (arith, (text_eq_iff k.ip k.ip).1 refl, (text_eq_iff k.username k.username).1 refl)

pub found_of_tried :
    (o : Option (AttemptKey × Failure))
    → 1 ≤ (failure_of o).count
    → (e : AttemptKey × Failure) × (o ≡ some e)
found_of_tried none h = absurd (omega arith)
found_of_tried (some e) h = (e, refl)

pub find_first-prune_expired :
    (l : Limiter) (ip username : Text) (now : ℕ) (e : AttemptKey × Failure)
    → find_first (is_pair (key_of ip username)) l.pair_failures ≡ some e
    → IsRunning e.1 now
    → find_first (is_pair (key_of ip username)) (prune_expired l now).pair_failures ≡ some e
unfolding prune_expired
find_first-prune_expired l ip username now e found h =
    find_first-delete_where-skip (is_pair (key_of ip username)) (λ x. is_over x.1 now)
      l.pair_failures found (is_over-IsRunning e.1 now h)

-- An account is let through only below its limit, whatever its address has done.
pub retry_after-lt :
    (l : Limiter) (ip username : Text) (now : ℕ)
    → IsRunning (tried l ip username) now
    → leb_ℤ (retry_after l ip username now) (pos 0) ≡ true
    → (tried l ip username).count < l.pair_limit
unfolding retry_after remaining_login_window
retry_after-lt l ip username now h granted = ground arith

pub tried-record_failure :
    (l : Limiter) (ip username : Text) (now : ℕ)
    → IsRunning (tried l ip username) now
    → tried (record_failure l ip username now) ip username
      ≡ record (tried l ip username) { count = suc (tried l ip username).count }
unfolding record_failure next_login_failure
tried-record_failure l ip username now h =
    let key = key_of ip username in
    let (e, found) = found_of_tried (find_first (is_pair key) l.pair_failures) h.0 in
    let running : IsRunning e.1 now = subst (λ o. IsRunning (failure_of o) now) found h in
    let kept = find_first-prune_expired l ip username now e found running in
    let pruned = (prune_expired l now).pair_failures in
    let new : Failure = counted (is_pair key) pruned now in
    let stored =
      find_first-put (is_pair key) (key, new) max_pair_entries pruned (is_pair_refl key new) kept in
    let same : new ≡ next_login_failure e.1 now = rw kept refl in
    let next : next_login_failure e.1 now ≡ record e.1 { count = suc e.1.count } =
      rw (is_over-IsRunning e.1 now running) (ground arith) in
    ap failure_of stored ∙ same ∙ next ∙ rw found refl

pub tried-prune_expired :
    (l : Limiter) (ip username : Text) (now : ℕ)
    → IsRunning (tried l ip username) now
    → tried (prune_expired l now) ip username ≡ tried l ip username
tried-prune_expired l ip username now h =
    let key = key_of ip username in
    let (e, found) = found_of_tried (find_first (is_pair key) l.pair_failures) h.0 in
    let running : IsRunning e.1 now = subst (λ o. IsRunning (failure_of o) now) found h in
    rw (find_first-prune_expired l ip username now e found running, found) refl

pub pair_limit-record_failure :
    (l : Limiter) (ip username : Text) (now : ℕ)
    → (record_failure l ip username now).pair_limit ≡ l.pair_limit
unfolding record_failure prune_expired
pair_limit-record_failure l ip username now = refl

pub pair_limit-prune_expired :
    (l : Limiter) (now : ℕ) → (prune_expired l now).pair_limit ≡ l.pair_limit
unfolding prune_expired
pair_limit-prune_expired l now = refl

-- A call on another account.
abbrev pub same_pair : AttemptKey → AttemptKey → Bool
same_pair k m = text_eq k.ip m.ip && text_eq k.username m.username

pub same_pair_eq : (k m : AttemptKey) → same_pair k m ≡ true → m ≡ k
same_pair_eq k m h =
    let ips : k.ip ≡ m.ip = (text_eq_iff k.ip m.ip).0 (ground (arith, h)) in
    let names : k.username ≡ m.username =
      (text_eq_iff k.username m.username).0 (ground (arith, h)) in
    λ i. record { ip = sym ips i; username = sym names i }

pub is_pair-other :
    (k m : AttemptKey)
    → same_pair k m ≡ false
    → (x : AttemptKey × Failure) → is_pair m x ≡ true
    → is_pair k x ≡ false
is_pair-other k m other x its =
    let same : x.0 ≡ m = same_pair_eq m x.0 its in
    subst (λ n. same_pair k n ≡ false) (sym same) other

find_first-upsert-other :
    {A : Type 0} (p q : A → Bool) (new : A)
    → p new ≡ false
    → ((x : A) → q x ≡ true → p x ≡ false)
    → (xs : List A) → find_first p (upsert q (λ _. new) new xs) ≡ find_first p xs
unfolding find_first upsert
find_first-upsert-other p q new out apart [] = rw out refl
find_first-upsert-other p q new out apart (x ∷ xs) =
    let rest = find_first-upsert-other p q new out apart xs in
    elim (Bool-cases (q x)) [
      | inl hit ↦ rw (hit, out, apart x hit) refl
      | inr miss ↦ rw (miss, rest) refl
    ]

find_first-put-other :
    {A : Type 0} (p q : A → Bool) (new : A) (limit : ℕ)
    → p new ≡ false
    → ((x : A) → q x ≡ true → p x ≡ false)
    → (xs : List A) → find_first p (put q new limit xs) ≡ find_first p xs
find_first-put-other p q new limit out apart xs =
    elim (Bool-cases (not (is_missing (find_first q xs)) || ltb (length xs) limit)) [
      | inl room ↦ rw room (find_first-upsert-other p q new out apart xs)
      | inr full ↦ rw full refl
    ]

pub entry-record_failure-other :
    (l : Limiter) (k : AttemptKey) (ip username : Text) (now : ℕ)
    → same_pair k (key_of ip username) ≡ false
    → entry (record_failure l ip username now) k ≡ entry (prune_expired l now) k
unfolding record_failure
entry-record_failure-other l k ip username now other =
    let m = key_of ip username in
    let pruned = (prune_expired l now).pair_failures in
    ap failure_of (
      find_first-put-other (is_pair k) (is_pair m) (m, counted (is_pair m) pruned now)
        max_pair_entries other (is_pair-other k m other) pruned)

pub find_first-delete_where-other :
    {A : Type 0} (p q : A → Bool) (xs : List A)
    → ((x : A) → q x ≡ true → p x ≡ false)
    → find_first p (delete_where q xs) ≡ find_first p xs
unfolding find_first delete_where
find_first-delete_where-other p q [] apart = refl
find_first-delete_where-other p q (x ∷ xs) apart =
    let rest = find_first-delete_where-other p q xs apart in
    elim (Bool-cases (q x)) [
      | inl hit ↦ rw (hit, apart x hit) rest
      | inr miss ↦ rw (miss, rest) refl
    ]
