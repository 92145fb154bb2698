-- ===== src/Gateway/Connections/Heartbeat.antt =====
-- The heartbeat check, seen from one socket.
use rt_financial_anomaly_det.Prelude.{
  ℕ, ◌≡◌, ◌≢◌, refl, sym, ◌∙◌, ap, subst, Bool, true, false, not, List, [], ◌∷◌, arith, ◌==◌,
  ==_iff, All-map, if◌then◌else◌, select, select-update, select_sound, ◌&&◌, update, All,
  Bool-cases, inl, inr,
}
use rt_financial_anomaly_det.Prelude.Keys.{Distinct}
use rt_financial_anomaly_det.Gateway.Connections.{
  Connection, Sending, is_sent, has_socket, is_overdue, pinged, ping_one, ping_all, heartbeat_check,
}
use rt_financial_anomaly_det.Gateway.Connections.Broadcast.{mem, disconnect_all-select}

module _ (timeout now : ℕ) (send : ℕ → Sending) (socket : ℕ) where
  abbrev State : Type 0
  State = List Connection × List ℕ

  -- what a state knows of the socket
  abbrev view : State → List Connection × Bool
  view s = (select (has_socket socket) s.0, mem socket s.1)

  update_other :
      (k : ℕ) (xs : List Connection)
      → k ≢ socket
      → select (has_socket socket) (update (has_socket k) (pinged now) xs)
        ≡ select (has_socket socket) xs
  unfolding select update
  update_other k [] ne = refl
  update_other k (x ∷ xs) ne = ground (arith, update_other k xs ne)

  ping_one_other :
      (c : Connection) (s : State)
      → c.socket ≢ socket
      → view (ping_one timeout now send c s) ≡ view s
  unfolding ping_one
  ping_one_other c s ne = ground (arith, update_other c.socket s.0 ne)

  ping_all_other :
      (items : List Connection) (s : State)
      → All (λ (c : Connection). c.socket ≢ socket) items
      → view (ping_all timeout now send items s) ≡ view s
  unfolding ping_all
  ping_all_other [] s h = refl
  ping_all_other (c ∷ rest) s h =
      ping_all_other rest (ping_one timeout now send c s) h.1 ∙ ping_one_other c s h.0

  -- The connection answered in time, and takes the next ping.
  abbrev pub is_alive : Connection → Bool
  is_alive c = not (is_overdue timeout now c) && is_sent (send c.socket)

  -- the view of the socket after its round
  abbrev settled : Connection → List Connection × Bool
  settled c = if is_alive c then (pinged now c ∷ [], false) else (c ∷ [], true)

  update_own :
      (xs : List Connection) (c : Connection)
      → select (has_socket socket) xs ≡ c ∷ []
      → select (has_socket socket) (update (has_socket socket) (pinged now) xs) ≡ pinged now c ∷ []
  update_own xs c h =
      select-update (has_socket socket) (has_socket socket) (pinged now) (λ x. refl) xs
      ∙ rw h (rw (select_sound (has_socket socket) xs c [] h) refl)

  ping_one_own :
      (c : Connection) (s : State)
      → c.socket ≡ socket
      → select (has_socket socket) s.0 ≡ c ∷ []
      → mem socket s.1 ≡ false
      → view (ping_one timeout now send c s) ≡ settled c
  unfolding ping_one
  ping_one_own c s own one none_stale =
      subst (λ k. view (ping_one timeout now send c s) ≡ settled c) own
        (ground (arith, own, one, none_stale, update_own s.0 c one))

  ping_all_own :
      (items : List Connection) (c : Connection) (s : State)
      → Distinct (λ (d : Connection). d.socket) items
      → select (has_socket socket) items ≡ c ∷ []
      → select (has_socket socket) s.0 ≡ c ∷ []
      → mem socket s.1 ≡ false
      → view (ping_all timeout now send items s) ≡ settled c
  unfolding ping_all select
  ping_all_own [] c s distinct found one none_stale = cc
  ping_all_own (d ∷ rest) c s distinct found one none_stale =
      elim (Bool-cases (d.socket == socket)) [
        | inl own ↦
            let same_socket : d.socket ≡ socket = (==_iff d.socket socket).0 own in
            let first : d ≡ c = ground (arith, own, found) in
            let others : All (λ (x : Connection). x.socket ≢ socket) rest =
              All-map (λ x ne e. ne (same_socket ∙ sym e)) rest distinct.0 in
            ping_all_other rest (ping_one timeout now send d s) others
            ∙ ping_one_own d s same_socket (one ∙ ap (λ x. x ∷ []) (sym first)) none_stale
            ∙ ap settled first
        | inr other ↦
            let not_own : d.socket ≢ socket = λ e. absurd (ground (arith, other, e)) in
            let unseen = ping_one_other d s not_own in
            ping_all_own rest c (ping_one timeout now send d s) distinct.1
              (ground (arith, other, found)) (ap (λ v. v.0) unseen ∙ one)
              (ap (λ v. v.1) unseen ∙ none_stale)
      ]

  select_view :
      (stale : List ℕ) (xs : List Connection)
      → select (has_socket socket) (select (λ (c : Connection). not (mem c.socket stale)) xs)
        ≡ (if mem socket stale then [] else select (has_socket socket) xs)
  unfolding select
  select_view stale [] = ground arith
  select_view stale (x ∷ xs) = ground (arith, select_view stale xs)

  -- Where sockets are distinct: a connection that did not answer its last ping within the time-out,
  -- or that does not take the next one, is gone after a check; any other one is there, with the
  -- time of the new ping.
  pub heartbeat_check_effect :
      (active : List Connection) (c : Connection)
      → Distinct (λ (d : Connection). d.socket) active
      → select (has_socket socket) active ≡ c ∷ []
      → select (has_socket socket) (heartbeat_check timeout now send active)
        ≡ (if is_alive c then pinged now c ∷ [] else [])
  unfolding heartbeat_check
  heartbeat_check_effect active c distinct found =
      let (active', stale) = ping_all timeout now send active (active, []) in
      let seen = ping_all_own active c (active, []) distinct found found refl in
      rw (disconnect_all-select stale active', select_view stale active')
        (elim (Bool-cases (is_alive c)) [
          | inl alive ↦ ground (arith, seen, alive)
          | inr dead ↦ ground (arith, seen, dead)
        ])
