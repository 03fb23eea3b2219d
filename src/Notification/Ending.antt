-- ===== src/Notification/Ending.antt =====
-- panel/internal/notification/watcher.go: a sweep of the servers' traffic comes to its end.
use vps_panel.Prelude.{
  ℕ, ◌≤◌, ◌≡◌, refl, ap, ◌||◌, not, some, List, [], ◌∷◌, ◌++◌, ◌==◌, arith, Bool-cases,
  Option-cases, inl, inr, ok, ok-inj, past_guard,
}
use vps_panel.Notification.{
  Entry, Server, Settings, State, Update, configured, save, sweep_server, sweep_servers,
  sweep_traffic, told, valid_update,
}
use vps_panel.Notification.Steps.{traffic_step-IsStepOf}

sweep_server_total :
    (rows : List State) (settings : Settings) (now : ℕ) (s : Server)
    → 1 ≤ settings.traffic_step_percent
    → (r : List State × List Entry) × (sweep_server rows settings now s ≡ some r)
unfolding sweep_server
sweep_server_total rows settings now s pos = elim (Bool-cases s.is_eligible) [
  | inr out ↦ ((rows, []), rw out refl)
  | inl e ↦ elim (Option-cases s.limit) [
    | inl unlimited ↦ ((rows, []), rw (e, unlimited) refl)
    | inr (limit, set) ↦ elim (Bool-cases (limit == 0)) [
      | inl zero_limit ↦ ((rows, []), rw (e, set, zero_limit) refl)
      | inr f ↦ elim (Option-cases s.cycle) [
        | inl never ↦ ((rows, []), rw (e, set, f, never) refl)
        | inr (cycle, at) ↦
            let (step, found, _) = traffic_step-IsStepOf s.used limit settings pos in
            (told rows s.id cycle step now, rw (e, set, f, at, found) refl)
      ]
    ]
  ]
]

sweep_servers_total :
    (rows : List State) (settings : Settings) (now : ℕ) (servers : List Server)
    → 1 ≤ settings.traffic_step_percent
    → (r : List State × List Entry) × (sweep_servers rows settings now servers ≡ some r)
unfolding sweep_servers
sweep_servers_total rows settings now [] pos = ((rows, []), refl)
sweep_servers_total rows settings now (s ∷ servers) pos =
    let (first, done) = sweep_server_total rows settings now s pos in
    let (rest, further) = sweep_servers_total first.0 settings now servers pos in
    ((rest.0, first.1 ++ rest.1), rw (done, sweep_servers, further) refl)

save-IsPositive :
    (old : Settings) (u : Update) {s : Settings} → save old u ≡ ok s → 1 ≤ s.traffic_step_percent
unfolding save valid_update
save-IsPositive old u {s} done =
    let (valid, same) = past_guard (not (valid_update u)) _ _ done in
    let kept = ap (λ (t : Settings). t.traffic_step_percent) (ok-inj same) in
    let positive : 1 ≤ u.settings.traffic_step_percent = ground arith in
    omega (arith, kept, positive)

-- With settings that were saved, a sweep of the traffic comes to its end, whatever the servers' usage,
-- limits and states are.
pub save-sweep_traffic :
    (old : Settings) (u : Update) {s : Settings}
    → save old u ≡ ok s
    → (rows : List State) (now : ℕ) (servers : List Server)
    → (r : List State × List Entry) × (sweep_traffic rows s now servers ≡ some r)
unfolding sweep_traffic
save-sweep_traffic old u {s} done rows now servers =
    elim (Bool-cases (not (configured s) || not s.traffic_enabled)) [
      | inl off ↦ ((rows, []), rw off refl)
      | inr on ↦
          let (r, e) = sweep_servers_total rows s now servers (save-IsPositive old u done) in
          (r, rw on e)
    ]
