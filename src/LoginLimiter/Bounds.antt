-- ===== src/LoginLimiter/Bounds.antt =====
-- panel/internal/api/login_limiter.go: the two tables never grow past their limits.
use vps_panel.Prelude.{
  ℕ, ◌≤◌, ◌+◌, Bool, List, [], ◌∷◌, arith, find_first, length, Bool-cases, inl, inr, if◌then◌else◌,
}
use vps_panel.Prelude.Text.{Text}
use vps_panel.Prelude.Tables.{upsert, delete_where}
use vps_panel.LoginLimiter.{
  AttemptKey, Failure, Limiter, allow, is_missing, is_over, is_pair, key_of, put, max_ip_entries,
  max_pair_entries, new_login_limiter, prune_expired, record_failure, reset, take_attempt,
}

length-delete_where-le :
    {A : Type 0} (p : A → Bool) (xs : List A) → length (delete_where p xs) ≤ length xs
unfolding delete_where
length-delete_where-le p [] = omega arith
length-delete_where-le p (x ∷ xs) = ground (arith, length-delete_where-le p xs)

length-upsert-le :
    {A : Type 0} (p : A → Bool) (f : A → A) (new : A) (xs : List A)
    → length (upsert p f new xs) ≤ length xs + (if is_missing (find_first p xs) then 1 else 0)
unfolding upsert find_first
length-upsert-le p f new [] = omega arith
length-upsert-le p f new (x ∷ xs) = ground (arith, length-upsert-le p f new xs)

length-put-le :
    {A : Type 0} (p : A → Bool) (new : A) (limit : ℕ) (xs : List A)
    → length xs ≤ limit
    → length (put p new limit xs) ≤ limit
length-put-le p new limit xs h = ground (arith, length-upsert-le p (λ _. new) new xs)

-- A call of the limiter, and the state after any number of them.
pub data Call : Type 0 where
  allowed failed taken : (ip username : Text) (now : ℕ) → Call
  cleared : (ip username : Text) → Call

abbrev pub step : Limiter → Call → Limiter
step l (allowed ip username now) = (allow l ip username now).0
step l (failed ip username now) = record_failure l ip username now
step l (taken ip username now) = (take_attempt l ip username now).0
step l (cleared ip username) = reset l ip username

abbrev pub run : Limiter → List Call → Limiter
run l [] = l
run l (c ∷ cs) = run (step l c) cs

abbrev pub IsBounded : Limiter → Type 0
IsBounded l = (length l.pair_failures ≤ max_pair_entries) × (length l.ip_failures ≤ max_ip_entries)

prune_expired-IsBounded : (l : Limiter) (now : ℕ) → IsBounded l → IsBounded (prune_expired l now)
unfolding prune_expired
prune_expired-IsBounded l now (p, q) =
    let a =
      length-delete_where-le (λ (e : AttemptKey × Failure). is_over e.1 now) l.pair_failures in
    let b = length-delete_where-le (λ (e : Text × Failure). is_over e.1 now) l.ip_failures in
    (omega (arith, a), omega (arith, b))

record_failure-IsBounded :
    (l : Limiter) (ip username : Text) (now : ℕ)
    → IsBounded l
    → IsBounded (record_failure l ip username now)
unfolding record_failure
record_failure-IsBounded l ip username now h =
    let (p, q) = prune_expired-IsBounded l now h in
    (length-put-le _ _ max_pair_entries _ p, length-put-le _ _ max_ip_entries _ q)

step-IsBounded : (l : Limiter) (c : Call) → IsBounded l → IsBounded (step l c)
unfolding allow take_attempt reset
step-IsBounded l (allowed ip username now) h = prune_expired-IsBounded l now h
step-IsBounded l (failed ip username now) h = record_failure-IsBounded l ip username now h
step-IsBounded l (taken ip username now) h =
    let pruned = prune_expired-IsBounded l now h in
    let recorded = record_failure-IsBounded (prune_expired l now) ip username now pruned in
    elim (Bool-cases (allow l ip username now).1.0) [
      | inl granted ↦ rw granted recorded
      | inr refused ↦ rw refused pruned
    ]
step-IsBounded l (cleared ip username) (p, q) =
    (omega (arith, length-delete_where-le (is_pair (key_of ip username)) l.pair_failures), q)

-- After any calls on a new limiter, whoever made them, the table of accounts has at most 4096 entries
-- and the table of addresses at most 1024.
pub run-IsBounded : (cs : List Call) → IsBounded (run new_login_limiter cs)
run-IsBounded cs = go new_login_limiter cs (omega arith, omega arith)
  where
    go : (l : Limiter) (cs : List Call) → IsBounded l → IsBounded (run l cs)
    go l [] h = h
    go l (c ∷ cs) h = go (step l c) cs (step-IsBounded l c h)
