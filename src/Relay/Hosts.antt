-- ===== src/Relay/Hosts.antt =====
-- panel/internal/relay/validation.go: the hosts that a relay is entered at and leads to, in their normal form.
use vps_panel.Prelude.{
  ◌≡◌, ◌⊎◌, ap, sym, Bool, some, any, ◌==◌, Option-cases, inl, inr, refl, subst, true, false, ◌||◌,
  not, Option, none, [], ltb, arith, Bool-cases, Result, ok, err, ok-inj, past_guard,
}
use vps_panel.Prelude.Text.{Text, byte_length, codes, text_eq, to_lower, trim_space}
use vps_panel.Relay.{
  Error, Ip, as_entry_host, is_separator, labels_of, starts_or_ends_with_dot, trim_brackets,
  valid_label, Relay, is_empty, normalize_entry_host, normalize_host,
}

-- A name of a host: no port, at most 253 bytes, and dots only between labels that are valid.
abbrev pub is_host_name : Text → Bool
is_host_name t = not (
    any (λ c. c == 58) t
    || ltb 253 (byte_length t)
    || starts_or_ends_with_dot t
    || any (λ label. not (valid_label label)) (labels_of t))

module _ (parse_ip : Text → Option Ip) where
  -- What becomes of a text that is to be a host.
  pub record IsHost (given host : Text) : Type 0 where
    pub present : is_empty (trim_space given) ≡ false
    pub bare : any is_separator (trim_space given) ≡ false
    pub normal :
        ((ip : Ip) × (parse_ip (trim_brackets (trim_space given)) ≡ some ip) × (host ≡ ip.text))
        ⊎ ((parse_ip (trim_brackets (trim_space given)) ≡ none)
            × (is_host_name (trim_space given) ≡ true)
            × (host ≡ to_lower (trim_space given)))

  -- The entry of a relay, by the mode and the host that were given.
  abbrev pub IsEntry : Relay → Relay → Type 0
  IsEntry given r =
      let mode = to_lower (trim_space given.entry_host_mode) in
      ((is_empty mode || text_eq mode (codes "auto") ≡ true)
        × (r.entry_host_mode ≡ codes "auto")
        × (r.entry_host ≡ []))
      ⊎ ((text_eq mode (codes "manual") ≡ true)
          × (r.entry_host_mode ≡ codes "manual")
          × IsHost given.entry_host r.entry_host)

  pub normalize_host-IsHost :
      (given : Text) {host : Text} → normalize_host parse_ip given ≡ ok host → IsHost given host
  unfolding normalize_host
  normalize_host-IsHost given {host} done =
      let t = trim_space given in
      let (bare, rest) = past_guard (is_empty t || any is_separator t) _ _ done in
      elim (Option-cases (parse_ip (trim_brackets t))) [
        | inr (ip, e) ↦ record {
          present = ground arith;
          bare = ground arith;
          normal = inl (ip, e, sym (ok-inj (rw e at rest)));
        }
        | inl e ↦
            let (named, same) = past_guard _ _ _ (rw e at rest) in
            record {
              present = ground arith;
              bare = ground arith;
              normal = inr (e, ap not named, sym (ok-inj same));
            }
      ]

  past_entry_host :
      (call : Result Error Text) {entry : Text × Text}
      → as_entry_host call ≡ ok entry
      → (host : Text) × (call ≡ ok host) × ((codes "manual", host) ≡ entry)
  past_entry_host (ok host) h = (host, refl, ok-inj h)
  past_entry_host (err e) h = cc

  pub normalize_entry_host-IsEntry :
      (given r : Relay)
      → normalize_entry_host parse_ip given.entry_host_mode given.entry_host
        ≡ ok (r.entry_host_mode, r.entry_host)
      → IsEntry given r
  unfolding normalize_entry_host
  normalize_entry_host-IsEntry given r done =
      let mode = to_lower (trim_space given.entry_host_mode) in
      elim (Bool-cases (is_empty mode || text_eq mode (codes "auto"))) [
        | inl auto ↦
            let same = ok-inj (rw auto at done) in
            inl (
              auto,
              sym (ap (λ (e : Text × Text). e.0) same),
              sym (ap (λ (e : Text × Text). e.1) same),
            )
        | inr other ↦
            let (by_hand, rest) =
              past_guard (not (text_eq mode (codes "manual"))) _ _ (rw other at done) in
            let (host, normal, same) =
              past_entry_host (normalize_host parse_ip given.entry_host) rest in
            inr (
              ground (arith, by_hand),
              sym (ap (λ (e : Text × Text). e.0) same),
              subst (IsHost given.entry_host) (ap (λ (e : Text × Text). e.1) same)
                  (normalize_host-IsHost given.entry_host normal),
            )
      ]
