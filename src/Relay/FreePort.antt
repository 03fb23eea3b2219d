-- ===== src/Relay/FreePort.antt =====
-- panel/internal/relay/validation.go: the port that is picked at random for a user's relay.
use vps_panel.Prelude.{
  ℕ, zero, suc, ◌+◌, ◌≤◌, ◌<◌, ◌≡◌, refl, sym, ◌∙◌, subst, Bool, false, ◌&&◌, some, List, [], ◌∷◌,
  any, keep, length, get_elem?, ◌==◌, arith, Bool-cases, inl, inr, ok, ok-inj, past_search,
}
use vps_panel.Listener.{Reservation, occupied_listeners}
use vps_panel.Relay.{first_port, free_ports, last_port, random_user_relay_port}

abbrev pub holds : ℕ → Reservation → Bool
holds port r = r.port == port

-- A port of the range that no reservation of the server holds.
abbrev pub IsFree : List Reservation → ℕ → ℕ → ℕ → Type 0
IsFree occupied start n port =
    (start ≤ port) × (port < start + n) × (any (holds port) occupied ≡ false)

later_or_first :
    (occupied : List Reservation) (n start : ℕ) {port : ℕ}
    → any (holds start) occupied ≡ false
    → ((i : ℕ)
        → get_elem? (free_ports occupied n (suc start)) i ≡ some port
        → IsFree occupied (suc start) n port)
    → (i : ℕ) → get_elem? (start ∷ free_ports occupied n (suc start)) i ≡ some port
    → IsFree occupied start (suc n) port
later_or_first occupied n start {port} free later zero e =
    let same : start ≡ port = cc in
    subst (IsFree occupied start (suc n)) same (omega arith, omega arith, free)
later_or_first occupied n start free later (suc i) e =
    let (low, high, rest) = later i e in (omega (arith, low), omega (arith, high), rest)

free_ports-IsFree :
    (occupied : List Reservation) (n start i : ℕ) {port : ℕ}
    → get_elem? (free_ports occupied n start) i ≡ some port
    → IsFree occupied start n port
unfolding free_ports
free_ports-IsFree occupied zero start i e = cc
free_ports-IsFree occupied (suc n) start i {port} e =
    elim (Bool-cases (any (holds start) occupied)) [
      | inl held ↦
          let (low, high, free) = free_ports-IsFree occupied n (suc start) i (rw held at e) in
          (omega (arith, low), omega (arith, high), free)
      | inr free ↦
          later_or_first occupied n start free (λ j. free_ports-IsFree occupied n (suc start) j) i
            (rw free at e)
    ]

-- What is held on the server, in the range of the users' relays, is among the reservations that were read.
any-occupied_listeners :
    (rows : List Reservation) (server port : ℕ)
    → first_port ≤ port
    → port ≤ last_port
    → any (holds port) (occupied_listeners rows server first_port last_port)
      ≡ any (λ r. r.server_id == server && r.port == port) rows
unfolding occupied_listeners keep
any-occupied_listeners [] server port low high = refl
any-occupied_listeners (r ∷ rows) server port low high =
    ground (arith, any-occupied_listeners rows server port low high)

-- A free port of the range is listed.
free_ports-length :
    (occupied : List Reservation) (n start port : ℕ)
    → IsFree occupied start n port
    → 1 ≤ length (free_ports occupied n start)
unfolding free_ports
free_ports-length occupied zero start port (low, high, free) = absurd (omega (arith, low, high))
free_ports-length occupied (suc n) start port (low, high, free) =
    elim (Bool-cases (any (holds start) occupied)) [
      | inr open_port ↦ rw open_port (omega arith)
      | inl held ↦ elim (Bool-cases (start == port)) [
        | inl same ↦ let at : start ≡ port = ground arith in absurd (let f = rw at at held in cc)
        | inr other ↦ rw held (
            free_ports-length occupied n (suc start) port (ground arith, omega (arith, high), free))
      ]
    ]

choice_lt : (choice : ℕ → ℕ) → ((n : ℕ) → choice (suc n) ≤ n) → (n : ℕ) → 1 ≤ n → choice n < n
choice_lt choice fair zero h = absurd (omega (arith, h))
choice_lt choice fair (suc n) h = let le = fair n in omega (arith, le)

get_elem?-some : (xs : List ℕ) (i : ℕ) → i < length xs → (x : ℕ) × (get_elem? xs i ≡ some x)
get_elem?-some [] i h = absurd (omega (arith, h))
get_elem?-some (x ∷ xs) zero h = (x, refl)
get_elem?-some (x ∷ xs) (suc i) h = get_elem?-some xs i (omega (arith, h))

-- The port of a user's relay is from 20000 to 29999, and nothing on the server holds it.
pub random_user_relay_port-IsUnheld :
    (choice : ℕ → ℕ) (rows : List Reservation) (server : ℕ) {port : ℕ}
    → random_user_relay_port choice rows server ≡ ok port
    → (20000 ≤ port)
      × (port ≤ 29999)
      × (any (λ (r : Reservation). r.server_id == server && r.port == port) rows ≡ false)
unfolding random_user_relay_port
random_user_relay_port-IsUnheld choice rows server {port} done =
    let occupied = occupied_listeners rows server first_port last_port in
    let available = free_ports occupied 10000 first_port in
    let (p, found, same) = past_search (get_elem? available (choice (length available))) _ _ done in
    let (low, high, free) =
      free_ports-IsFree occupied 10000 first_port (choice (length available)) found in
    let at : p ≡ port = ok-inj same in
    let apart = any-occupied_listeners rows server p low (omega (arith, high)) in
    subst
      (λ q.
        (20000 ≤ q)
        × (q ≤ 29999)
        × (any (λ (r : Reservation). r.server_id == server && r.port == q) rows ≡ false))
      at (low, omega (arith, high), sym apart ∙ free)

-- As long as one port of the range is not held on the server, a port is found, by any choice among those
-- there are.
pub random_user_relay_port-finds :
    (choice : ℕ → ℕ) (rows : List Reservation) (server spare : ℕ)
    → ((n : ℕ) → choice (suc n) ≤ n)
    → 20000 ≤ spare
    → spare ≤ 29999
    → any (λ (r : Reservation). r.server_id == server && r.port == spare) rows ≡ false
    → (port : ℕ) × (random_user_relay_port choice rows server ≡ ok port)
unfolding random_user_relay_port
random_user_relay_port-finds choice rows server spare fair low high free =
    let occupied = occupied_listeners rows server first_port last_port in
    let available = free_ports occupied 10000 first_port in
    let unheld = any-occupied_listeners rows server spare low high ∙ free in
    let some_left =
      free_ports-length occupied 10000 first_port spare (low, omega (arith, high), unheld) in
    let within = choice_lt choice fair (length available) some_left in
    let (port, found) = get_elem?-some available (choice (length available)) within in
    (port, rw (found, random_user_relay_port) refl)
