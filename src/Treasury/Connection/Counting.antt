-- ===== src/Treasury/Connection/Counting.antt =====
-- The connection status of a provider is decided by the number of errors in a row.
use tallykeep.Repositories.Mirror.{has_double_ref}
use tallykeep.Treasury.Mirroring.Providers.{persist_entries-providers}
use tallykeep.Treasury.Mirroring.{persist_entries}
use tallykeep.Prelude.{
  ◌++◌, sym, subst, ◌&&◌, ℕ, zero, suc, ◌≡◌, refl, ◌⊎◌, inl, inr, String, Bool, false, Option, none,
  some, List, arith, ◌+◌, ltb, if◌then◌else◌, Bool-cases, Option-cases, ℤ,
}
use tallykeep.Errors.{http_error}
use tallykeep.Table.{get}
use tallykeep.Table.Laws.{Everywhere-get, Everywhere, Everywhere-modify, Everywhere-flush}
use tallykeep.Domain.Provider.{
  CustodialProvider, ConnectionStatus, healthy, degraded, unreachable, auth_failed, provider_key,
}
use tallykeep.Db.Session.{◌>>◌, pure, state_bind, state_in_transaction, write, bind_raise_state}
use tallykeep.Db.{Db}
use tallykeep.Repositories.Providers.{
  new_provider-cases, update_balance, update_connection_status, update_non_btc_balances,
  modify_provider, provider_get,
}
use tallykeep.Treasury.Connection.{
  cycle_out, commit_entries, store_report, PollCycleOut, record_success, PollOutcome, auth_error,
  transient_error, polled, n_unreachable, is_auth_failed, status_after_error, handle_auth_error,
  handle_transient_error, handle_outcome, move_cursor, poll_cycle,
}

-- the status after so many errors in a row
abbrev pub status_for : ℕ → ConnectionStatus
status_for zero = healthy
status_for (suc n) = if ltb (suc n) n_unreachable then degraded else unreachable

-- An authentication failure, or the status for the number of errors.
pub record IsCounted (p : CustodialProvider) : Type 0 where
  pub counted :
      ((p.connection_status ≡ auth_failed) × (p.consecutive_error_count ≡ 0))
      ⊎ (p.connection_status ≡ status_for p.consecutive_error_count)

status_after_error-counted :
    (p : CustodialProvider)
    → IsCounted p
    → is_auth_failed p.connection_status ≡ false
    → status_after_error p.connection_status (p.consecutive_error_count + 1)
      ≡ status_for (p.consecutive_error_count + 1)
status_after_error-counted p c h = elim c.counted [
  | inl (failed, _) ↦ ground arith
  | inr s ↦ counting p.consecutive_error_count p.connection_status s
]
  where
    counting :
        (n : ℕ) (s : ConnectionStatus)
        → s ≡ status_for n
        → status_after_error s (n + 1) ≡ status_for (n + 1)
    counting zero s e = ground arith
    counting (suc n) s e = ground arith

-- a write that keeps the count right, or sets it
modify_provider-IsCounted :
    (id : ℕ) (f : CustodialProvider → CustodialProvider) (d : Db)
    → ((p : CustodialProvider) → IsCounted p → IsCounted (f p))
    → Everywhere IsCounted d.providers
    → Everywhere IsCounted (modify_provider id f d).providers
modify_provider-IsCounted id f d keep h =
    Everywhere-modify IsCounted id f d.providers (λ r _ c. keep r c) h

update_connection_status-IsCounted :
    (id : ℕ) (s : ConnectionStatus) (n now : ℕ) (e : Option String) (d : Db)
    → (((s ≡ auth_failed) × (n ≡ 0)) ⊎ (s ≡ status_for n))
    → Everywhere IsCounted d.providers
    → Everywhere IsCounted (update_connection_status id s n now e d).providers
update_connection_status-IsCounted id s n now e d counted h =
    Everywhere-modify IsCounted id _ d.providers (λ r _ _. record { counted = counted }) h

handle_auth_error-IsCounted :
    (p : CustodialProvider) (e : String) (now : ℕ) (d : Db)
    → Everywhere IsCounted d.providers
    → Everywhere IsCounted (handle_auth_error p e now d).1.providers
unfolding handle_auth_error
handle_auth_error-IsCounted p e now d h = elim (Bool-cases (is_auth_failed p.connection_status)) [
  | inl failed ↦ rw failed h
  | inr not_failed ↦ rw not_failed (
      Everywhere-flush IsCounted _
        (update_connection_status-IsCounted p.id auth_failed 0 now (some e) d (inl (refl, refl)) h))
]

handle_transient_error-IsCounted :
    (p : CustodialProvider) (e : String) (now : ℕ) (d : Db)
    → IsCounted p
    → Everywhere IsCounted d.providers
    → Everywhere IsCounted (handle_transient_error p e now d).1.providers
unfolding handle_transient_error
handle_transient_error-IsCounted p e now d c h =
    elim (Bool-cases (is_auth_failed p.connection_status)) [
      | inl failed ↦ rw failed h
      | inr not_failed ↦ rw not_failed (
          Everywhere-flush IsCounted _ (
            update_connection_status-IsCounted p.id _ _ now (some e) d
              (inr (status_after_error-counted p c not_failed)) h))
    ]

record_success-IsCounted :
    (id now : ℕ) (balance : ℤ) (others : List (String × String)) (newest : Option ℕ) (d : Db)
    → Everywhere IsCounted d.providers
    → Everywhere IsCounted (record_success id now balance others newest d).providers
unfolding record_success
record_success-IsCounted id now balance others newest d h =
    update_connection_status-IsCounted id healthy 0 now none (move_cursor id newest balanced)
      (inr refl) (moved newest)
  where
    balanced : Db
    balanced = update_non_btc_balances id others (update_balance id balance now d)

    kept : Everywhere IsCounted balanced.providers
    kept =
        modify_provider-IsCounted id _ (update_balance id balance now d)
          (λ q c. record { counted = c.counted })
          (modify_provider-IsCounted id _ d (λ q c. record { counted = c.counted }) h)

    moved : (newest : Option ℕ) → Everywhere IsCounted (move_cursor id newest balanced).providers
    moved none = kept
    moved (some t) =
        modify_provider-IsCounted id (λ p. record p { ledger_cursor_at = some t }) balanced
          (λ q c. record { counted = c.counted }) kept

commit_entries-IsCounted :
    (d : Db)
    → Everywhere IsCounted d.providers
    → Everywhere IsCounted (commit_entries d).1.providers
commit_entries-IsCounted d h =
    elim (Bool-cases (has_double_ref (d.mirror.rows ++ d.mirror.pending))) [
      | inl broken ↦ rw broken h
      | inr kept ↦ rw kept (Everywhere-flush IsCounted d.providers h)
    ]

handle_outcome-IsCounted :
    (p : CustodialProvider) (now : ℕ) (o : PollOutcome) (d : Db)
    → IsCounted p
    → Everywhere IsCounted d.providers
    → Everywhere IsCounted (handle_outcome p now o d).1.providers
unfolding handle_outcome
handle_outcome-IsCounted p now (auth_error e) d c h =
    rw
      (bind_raise_state PollCycleOut (handle_auth_error p e now d).0 (http_error 502)
        (handle_auth_error p e now d).1)
      (handle_auth_error-IsCounted p e now d h)
handle_outcome-IsCounted p now (transient_error e) d c h =
    rw
      (bind_raise_state PollCycleOut (handle_transient_error p e now d).0 (http_error 502)
        (handle_transient_error p e now d).1)
      (handle_transient_error-IsCounted p e now d c h)
handle_outcome-IsCounted p now (polled entries balance others newest) d c h =
    state_in_transaction (λ x. Everywhere IsCounted x.providers)
      (store_report p now entries balance others newest) d h
      (state_bind (λ x. Everywhere IsCounted x.providers) (persist_entries entries now)
        (λ t.
          (write (record_success p.id now balance others newest) >> commit_entries)
          >> pure (cycle_out entries t now))
        d kept
        λ t.
          state_bind (λ x. Everywhere IsCounted x.providers)
            (write (record_success p.id now balance others newest) >> commit_entries)
            (λ _. pure (cycle_out entries t now)) (persist_entries entries now d).1 stored
            (λ _. stored))
  where
    kept : Everywhere IsCounted (persist_entries entries now d).1.providers
    kept = subst (Everywhere IsCounted) (sym (persist_entries-providers entries now d)) h

    stored :
        Everywhere IsCounted
          (commit_entries (
            record_success p.id now balance others newest
              (persist_entries entries now d).1)).1.providers
    stored =
        commit_entries-IsCounted
          (record_success p.id now balance others newest (persist_entries entries now d).1)
          (record_success-IsCounted p.id now balance others newest (persist_entries entries now d).1
            kept)

-- an outcome is handled for a stored provider only, one that is active and whose secrets can be read
poll_cycle-state :
    (now id : ℕ) (secrets_readable : Bool) (o : PollOutcome) (d : Db)
    → ((poll_cycle now id secrets_readable o d).1 ≡ d)
      ⊎ ((p : CustodialProvider) × (get id d.providers ≡ some p)
          × ((poll_cycle now id secrets_readable o d).1 ≡ (handle_outcome p now o d).1))
unfolding poll_cycle provider_get
poll_cycle-state now id secrets_readable o d = elim (Option-cases (get id d.providers)) [
  | inl missing ↦ inl (ground arith)
  | inr (p, found) ↦ elim (new_provider-cases p) [
    | inr invalid ↦ inl (ground arith)
    | inl valid ↦ elim (Bool-cases (p.is_active && secrets_readable)) [
      | inr refused ↦ inl (ground arith)
      | inl served ↦ inr (p, found, ground arith)
    ]
  ]
]

-- Whatever a poll cycle meets, the status of every provider stays the one for its number of errors in
-- a row: healthy at none, degraded below five, unreachable from five on; or the authentication failed,
-- with none counted.
pub poll_cycle-IsCounted :
    (now id : ℕ) (secrets_readable : Bool) (o : PollOutcome) (d : Db)
    → Everywhere IsCounted d.providers
    → Everywhere IsCounted (poll_cycle now id secrets_readable o d).1.providers
poll_cycle-IsCounted now id secrets_readable o d h =
    elim (poll_cycle-state now id secrets_readable o d) [
      | inl same ↦ rw same h
      | inr (p, found, state) ↦
          rw state (
            handle_outcome-IsCounted p now o d (Everywhere-get IsCounted id d.providers p found h)
              h)
    ]
