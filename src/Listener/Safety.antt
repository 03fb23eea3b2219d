-- ===== src/Listener/Safety.antt =====
-- panel/internal/listener/listener.go: no two reservations of a server conflict, ever.
use vps_panel.Prelude.{
  ℕ, ◌≡◌, ◌↔◌, refl, sym, ◌∙◌, subst, true, not, ok-inj, past_guard, Bool, false, ◌&&◌, arith,
  Option, none, List, [], ◌∷◌, ok, >>=-eq-ok, any, All, Bool-cases, inl, inr, Option-cases, ◌==◌,
}
use vps_panel.Prelude.Text.{Text}
use vps_panel.Prelude.Tables.{upsert, delete_where, All-upsert, All-delete_where}
use vps_panel.Listener.{
  AvailabilityOptions, Network, Reservation, ResourceType, blocks, conflicts, listener_available,
  normalize_network, overlap, relay, release_listener, reserve_listener, is_row, same_key,
  same_type, is_source,
}

overlap_comm : (a b : Network) → overlap a b ≡ overlap b a
unfolding overlap
overlap_comm a b = ground arith

module _ (source : ℕ → Option ℕ) where
  -- No row conflicts with a later one.
  abbrev pub NoConflict : List Reservation → Type 0
  NoConflict [] = Unit
  NoConflict (r ∷ rs) = All (λ e. conflicts source r e ≡ false) rs × NoConflict rs

  conflicts_comm : (a b : Reservation) → conflicts source a b ≡ false → conflicts source b a ≡ false
  unfolding conflicts
  conflicts_comm a b e = ground (arith, overlap_comm a.network b.network)

  none_conflict :
      (new : Reservation) (rows : List Reservation)
      → any (conflicts source new) rows ≡ false
      → All (λ e. conflicts source new e ≡ false) rows
  none_conflict new [] e = tt
  none_conflict new (r ∷ rows) e = (ground arith, none_conflict new rows (ground arith))

  NoConflict-upsert :
      (new : Reservation) (p : Reservation → Bool) (rows : List Reservation)
      → All (λ e. conflicts source new e ≡ false) rows
      → NoConflict rows
      → NoConflict (upsert p (λ _. new) new rows)
  unfolding upsert
  NoConflict-upsert new p [] h v = (tt, tt)
  NoConflict-upsert new p (r ∷ rows) (h, hs) (v, vs) =
      let clear = conflicts_comm new r h in
      let rest = NoConflict-upsert new p rows hs vs in
      let others =
        All-upsert (λ e. conflicts source r e ≡ false) p (λ _. new) new (λ _ _. clear) clear rows
          v in
      elim (Bool-cases (p r)) [ inl hit ↦ rw hit (hs, vs) | inr miss ↦ rw miss (others, rest) ]

  NoConflict-delete_where :
      (p : Reservation → Bool) (rows : List Reservation)
      → NoConflict rows
      → NoConflict (delete_where p rows)
  unfolding delete_where
  NoConflict-delete_where p [] v = tt
  NoConflict-delete_where p (r ∷ rows) (v, vs) =
      let rest = NoConflict-delete_where p rows vs in
      let others = All-delete_where (λ e. conflicts source r e ≡ false) p rows v in
      elim (Bool-cases (p r)) [ inl hit ↦ rw hit rest | inr miss ↦ rw miss (others, rest) ]

  -- A reservation that succeeds keeps the table free of conflicts.
  pub reserve_listener-NoConflict :
      (has_server : ℕ → Bool) (rows after : List Reservation) (value : Reservation) (network : Text)
      → NoConflict rows
      → reserve_listener source has_server rows value network ≡ ok after
      → NoConflict after
  unfolding reserve_listener
  reserve_listener-NoConflict has_server rows after value network v e =
      let (n, _, guarded) = >>=-eq-ok (normalize_network network) _ e in
      let new = record value { network = n } in
      let (clear, rest) = past_guard (any (conflicts source new) rows) _ _ guarded in
      let (_, same) = past_guard (not (is_row has_server new)) _ _ rest in
      subst NoConflict (ok-inj same)
        (NoConflict-upsert new (same_key new) rows (none_conflict new rows clear) v)

  -- Releasing a resource's ports keeps the table free of conflicts.
  pub release_listener-NoConflict :
      (rows : List Reservation) (kind : ResourceType) (id : ℕ)
      → NoConflict rows
      → NoConflict (release_listener rows kind id)
  unfolding release_listener
  release_listener-NoConflict rows kind id v =
      NoConflict-delete_where (λ r. same_type r.resource_type kind && r.resource_id == id) rows v

  -- A row blocks a relay exactly when it conflicts with it.
  blocks-conflicts :
      (new r : Reservation) (options : AvailabilityOptions)
      → new.resource_type ≡ relay
      → options.allowed_client ≡ source new.resource_id
      → options.excluded ≡ none
      → blocks new.server_id new.port new.network options r ≡ conflicts source new r
  unfolding conflicts
  blocks-conflicts new r options t a x =
      let s = overlap_comm new.network r.network in
      elim (Option-cases (source new.resource_id)) [
        | inl e ↦ rw (x, a, e, s, t, is_source) (ground arith)
        | inr (c, e) ↦ rw (x, a, e, s, t, is_source) (ground arith)
      ]

  any-blocks-conflicts :
      (new : Reservation) (options : AvailabilityOptions) (rows : List Reservation)
      → new.resource_type ≡ relay
      → options.allowed_client ≡ source new.resource_id
      → options.excluded ≡ none
      → any (blocks new.server_id new.port new.network options) rows
        ≡ any (conflicts source new) rows
  any-blocks-conflicts new options [] t a x = refl
  any-blocks-conflicts new options (r ∷ rows) t a x =
      rw (blocks-conflicts new r options t a x, any-blocks-conflicts new options rows t a x) refl

  -- For a relay whose port is from 1 to 65535 and whose server is there, with the relay's own client
  -- allowed and nothing excluded, a port is found available exactly when its reservation for the relay
  -- succeeds: the check of the program and the trigger of the table agree.
  pub listener_available-reserve_listener :
      (has_server : ℕ → Bool) (rows : List Reservation) (value : Reservation) (network : Text)
      → value.resource_type ≡ relay
      → (options : AvailabilityOptions) → options.allowed_client ≡ source value.resource_id
      → options.excluded ≡ none
      → is_row has_server value ≡ true
      → (listener_available rows value.server_id value.port network options ≡ ok tt) ↔ (
          (after : List Reservation) × (reserve_listener source has_server rows value network
            ≡ ok after))
  unfolding listener_available reserve_listener is_row
  listener_available-reserve_listener has_server rows value network t options a x row = (
    λ e.
        let (n, normal, guarded) = >>=-eq-ok (normalize_network network) _ e in
        let new = record value { network = n } in
        let same = any-blocks-conflicts new options rows t a x in
        let (clear, _) =
          past_guard (any (blocks value.server_id value.port n options) rows) _ _ guarded in
        let free : any (conflicts source new) rows ≡ false = sym same ∙ clear in
        (upsert (same_key new) (λ _. new) new rows, rw (normal, free, row) refl),
    λ (after, e).
        let (n, normal, guarded) = >>=-eq-ok (normalize_network network) _ e in
        let new = record value { network = n } in
        let same = any-blocks-conflicts new options rows t a x in
        let (free, _) = past_guard (any (conflicts source new) rows) _ _ guarded in
        let clear : any (blocks value.server_id value.port n options) rows ≡ false = same ∙ free in
        rw (normal, clear) refl,
  )
