-- ===== src/Gateway/Connections/Broadcast.antt =====
-- What a broadcast delivers, and which connections it leaves.
use rt_financial_anomaly_det.Prelude.{
  ℕ, ◌≡◌, refl, sym, ◌∙◌, ap, Bool, true, false, not, List, [], ◌∷◌, arith, any, ◌==◌, length,
  select, All, All-map, select-and, fun_ext, Bool-cases, inl, inr,
}
use rt_financial_anomaly_det.Gateway.Connections.{
  Connection, Sending, is_sent, has_socket, disconnect, disconnect_all, deliver_all, broadcast,
}

-- `socket in sockets`
abbrev pub mem : ℕ → List ℕ → Bool
mem socket sockets = any (λ s. socket == s) sockets

select_ext :
    {A : Type 0} (p q : A → Bool) (xs : List A)
    → All (λ x. p x ≡ q x) xs
    → select p xs ≡ select q xs
unfolding select
select_ext p q [] h = refl
select_ext p q (x ∷ xs) h = rw (h.0, select_ext p q xs h.1) refl

pub select_all : {A : Type 0} (xs : List A) → select (λ x. true) xs ≡ xs
unfolding select
select_all [] = refl
select_all (x ∷ xs) = ap (λ ys. x ∷ ys) (select_all xs)

-- Removing sockets one by one keeps the entries of the other sockets.
pub disconnect_all-select :
    (sockets : List ℕ) (active : List Connection)
    → disconnect_all sockets active ≡ select (λ (c : Connection). not (mem c.socket sockets)) active
unfolding disconnect_all disconnect
disconnect_all-select [] active = sym (select_all active)
disconnect_all-select (s ∷ rest) active =
    disconnect_all-select rest (select (λ (c : Connection). not (has_socket s c)) active)
    ∙ sym (
        select-and (λ (c : Connection). not (has_socket s c)) (λ c. not (mem c.socket rest)) active)
    ∙ ap (λ (w : Connection → Bool). select w active) (fun_ext λ c. ground arith)

module _ (send : ℕ → Sending) where
  deliver_all_count :
      (active : List Connection)
      → (deliver_all send active).1
        ≡ length (select (λ (c : Connection). is_sent (send c.socket)) active)
  unfolding deliver_all select
  deliver_all_count [] = refl
  deliver_all_count (c ∷ rest) = ground (arith, deliver_all_count rest)

  -- A socket that failed is one whose send failed.
  deliver_all_sound :
      (active : List Connection) (socket : ℕ)
      → mem socket (deliver_all send active).0 ≡ true
      → is_sent (send socket) ≡ false
  unfolding deliver_all
  deliver_all_sound [] socket h = cc
  deliver_all_sound (c ∷ rest) socket h = ground (arith, deliver_all_sound rest socket)

  failed_kept :
      (c d : Connection) (rest : List Connection)
      → (is_sent (send d.socket) ≡ false → mem d.socket (deliver_all send rest).0 ≡ true)
      → is_sent (send d.socket) ≡ false
      → mem d.socket (deliver_all send (c ∷ rest)).0 ≡ true
  unfolding deliver_all
  failed_kept c d rest h fails = ground (arith, h fails)

  failed_first :
      (c : Connection) (rest : List Connection)
      → is_sent (send c.socket) ≡ false
      → mem c.socket (deliver_all send (c ∷ rest)).0 ≡ true
  unfolding deliver_all
  failed_first c rest fails = ground (arith, fails)

  -- Every socket whose send failed is among the failed ones.
  deliver_all_complete :
      (active : List Connection)
      → All
          (λ (d : Connection).
            is_sent (send d.socket) ≡ false → mem d.socket (deliver_all send active).0 ≡ true)
          active
  deliver_all_complete [] = tt
  deliver_all_complete (c ∷ rest) = (
    failed_first c rest,
    All-map (λ d h. failed_kept c d rest h) rest (deliver_all_complete rest),
  )

  kept_iff :
      (active : List Connection) (d : Connection)
      → (is_sent (send d.socket) ≡ false → mem d.socket (deliver_all send active).0 ≡ true)
      → not (mem d.socket (deliver_all send active).0) ≡ is_sent (send d.socket)
  kept_iff active d h = elim (Bool-cases (is_sent (send d.socket))) [
    | inl works ↦ ground (arith, works, deliver_all_sound active d.socket)
    | inr fails ↦ ground (arith, fails, h fails)
  ]

  -- A broadcast counts the connections that took the message, keeps exactly those, in their order,
  -- and drops every other one.
  pub broadcast_effect :
      (active : List Connection)
      → let kept = select (λ (c : Connection). is_sent (send c.socket)) active in
        broadcast send active ≡ (length kept, kept)
  unfolding broadcast
  broadcast_effect active =
      let same =
        select_ext (λ (c : Connection). not (mem c.socket (deliver_all send active).0))
          (λ c. is_sent (send c.socket)) active
          (All-map (kept_iff active) active (deliver_all_complete active)) in
      rw (deliver_all_count active, disconnect_all-select (deliver_all send active).0 active, same)
        refl
