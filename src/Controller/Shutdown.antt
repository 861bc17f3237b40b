-- ===== src/Controller/Shutdown.antt =====
-- The order in which the listener and the scaler are stopped.
use oxide_gha_runner_scale_s.Prelude.{
  true, false, none, is_some, ◌≡◌, ◌≢◌, ◌⊎◌, Option-cases, Bool-cases, inl, inr, refl, arith,
}
use oxide_gha_runner_scale_s.Controller.{
  Phase, selecting, stopping, awaiting_scaler, awaiting_listener, returned, Peers, initial_peers,
  PeerStep, PeerReach, here, next,
}

-- What holds at every moment: the scaler is canceled only behind the listener's return, and the
-- phase tells who has returned and who is canceled.
abbrev IsOrderly : Peers → Type 0
IsOrderly y =
    (y.scaler_canceled ≡ true → is_some y.listener_result ≡ true)
    × (y.phase ≡ stopping → y.listener_canceled ≡ true)
    × (y.phase ≡ awaiting_scaler → (is_some y.listener_result ≡ true) × (y.scaler_canceled ≡ true))
    × (y.phase ≡ awaiting_listener
        → (is_some y.scaler_result ≡ true) × (y.listener_canceled ≡ true))
    × (y.phase ≡ returned → (is_some y.listener_result ≡ true) × (is_some y.scaler_result ≡ true))

PeerStep-IsOrderly : {y z : Peers} → PeerStep y z → IsOrderly y → IsOrderly z
PeerStep-IsOrderly PeerStep.cancel_parent a = ground arith
PeerStep-IsOrderly (PeerStep.listener_returns e h) a = ground arith
PeerStep-IsOrderly (PeerStep.scaler_returns e h) a = ground arith
PeerStep-IsOrderly (PeerStep.select_done p h) a = ground arith
PeerStep-IsOrderly (PeerStep.select_listener e p h) a = ground arith
PeerStep-IsOrderly (PeerStep.select_scaler e p h) a = ground arith
PeerStep-IsOrderly (PeerStep.listener_stopped e p h) a = ground arith
PeerStep-IsOrderly (PeerStep.receive_scaler e p h) a = ground arith
PeerStep-IsOrderly (PeerStep.receive_listener e p h) a = ground arith

PeerReach-IsOrderly : {y : Peers} → PeerReach initial_peers y → IsOrderly y
PeerReach-IsOrderly here = ((λ h. cc), (λ h. cc), (λ h. cc), (λ h. cc), (λ h. cc))
PeerReach-IsOrderly (next r st) = PeerStep-IsOrderly st (PeerReach-IsOrderly r)

-- The scaler's context is canceled only after the listener has returned, so that a message that the
-- listener is handling is finished with the scaler still running; and `runListenerAndScaler` returns
-- only after both peers have.
pub listener_returned_first :
    {y : Peers}
    → PeerReach initial_peers y
    → (y.scaler_canceled ≡ true → is_some y.listener_result ≡ true)
      × (y.phase ≡ returned → (is_some y.listener_result ≡ true) × (is_some y.scaler_result ≡ true))
listener_returned_first r = let a = PeerReach-IsOrderly r in (a.0, a.4)

-- Nothing has happened yet, or a peer that has been canceled has not returned.
abbrev pub IsWaiting : Peers → Type 0
IsWaiting y =
    ((y.parent_canceled ≡ false) × (y.listener_result ≡ none) × (y.scaler_result ≡ none))
    ⊎ (((y.listener_canceled ≡ true) × (y.listener_result ≡ none))
        ⊎ ((y.scaler_canceled ≡ true) × (y.scaler_result ≡ none)))

-- A step that `runListenerAndScaler` itself takes leads to another phase.
abbrev pub CanMove : Peers → Type 0
CanMove y = (z : Peers) × PeerStep y z × (z.phase ≢ y.phase)

selecting-progress : (y : Peers) → y.phase ≡ selecting → CanMove y ⊎ IsWaiting y
selecting-progress y p = elim (Option-cases y.listener_result) [
  | inr (e, h) ↦ inl (_, PeerStep.select_listener e p h, λ k. cc)
  | inl h ↦ elim (Option-cases y.scaler_result) [
    | inr (e, k) ↦ inl (_, PeerStep.select_scaler e p k, λ q. cc)
    | inl k ↦ elim (Bool-cases y.parent_canceled) [
      | inl c ↦ inl (_, PeerStep.select_done p c, λ q. cc)
      | inr c ↦ inr (inl (c, h, k))
    ]
  ]
]

progress_at :
    (y : Peers) (p : Phase)
    → y.phase ≡ p
    → IsOrderly y
    → (y.phase ≡ returned) ⊎ (CanMove y ⊎ IsWaiting y)
progress_at y selecting p a = inr (selecting-progress y p)
progress_at y stopping p a = elim (Option-cases y.listener_result) [
  | inr (e, h) ↦ inr (inl (_, PeerStep.listener_stopped e p h, λ k. cc))
  | inl h ↦ inr (inr (inr (inl (a.1 p, h))))
]
progress_at y awaiting_scaler p a = elim (Option-cases y.scaler_result) [
  | inr (e, h) ↦ inr (inl (_, PeerStep.receive_scaler e p h, λ k. cc))
  | inl h ↦ inr (inr (inr (inr ((a.2 p).1, h))))
]
progress_at y awaiting_listener p a = elim (Option-cases y.listener_result) [
  | inr (e, h) ↦ inr (inl (_, PeerStep.receive_listener e p h, λ k. cc))
  | inl h ↦ inr (inr (inr (inl ((a.3 p).1, h))))
]
progress_at y returned p a = inl p

-- The shutdown does not hang on its own: at every moment `runListenerAndScaler` has returned, or can
-- go on, or waits for a peer that it has canceled, or neither a peer has returned nor the process
-- been canceled.
pub shutdown_progress :
    {y : Peers} → PeerReach initial_peers y → (y.phase ≡ returned) ⊎ (CanMove y ⊎ IsWaiting y)
shutdown_progress {y} r = let a = PeerReach-IsOrderly r in progress_at y y.phase refl a
