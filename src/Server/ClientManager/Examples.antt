-- ===== src/Server/ClientManager/Examples.antt =====
-- The client manager with two clients, one of which fails.
use market_data_handle.Prelude.{
  ℕ, ◌+◌, ◌≡◌, ◌≤◌, ◌<◌, refl, none, some, List, [], ◌∷◌, ◌++◌, ◌⊎◌, ◌==◌, if◌then◌else◌, length,
  take, min, arith, Bool-cases, inl, inr,
}
use market_data_handle.Server.Exchange.{SendResult, accepted, failed}
use market_data_handle.Server.ClientManager.{ClientManager, init, broadcast, new_client, find}
use market_data_handle.Server.Exchange.Send.{Effect}
use market_data_handle.Server.ClientManager.Accounts.{broadcast_accounts}
use market_data_handle.Server.ClientManager.Book.{account}
use market_data_handle.Server.ClientManager.Balance.{IsBalanced, broadcast-IsBalanced}

abbrev two_clients : ClientManager
two_clients = record init { clients = new_client 4 ∷ new_client 7 ∷ []; total_connected = 2 }

abbrev send : ℕ → List ℕ → ℕ → SendResult × ℕ
send fd bs net = if fd == 4 then (failed, net) else (accepted (length bs), net + length bs)

broadcast-IsBalanced_example : IsBalanced (broadcast send (1 ∷ 2 ∷ 3 ∷ []) (two_clients, 0)).0
broadcast-IsBalanced_example =
    broadcast-IsBalanced send (1 ∷ 2 ∷ 3 ∷ []) two_clients 0 (omega arith)

-- A network with a log, of which descriptor 4 is broken and the others take two bytes at a time.
abbrev send_logged : ℕ → List ℕ → (ℕ → List ℕ) → SendResult × (ℕ → List ℕ)
send_logged fd bs log = if fd == 4 then (failed, log) else (
  accepted (min 2 (length bs)),
  λ other. if fd == other then log other ++ take (min 2 (length bs)) bs else log other,
)

send_logged-Effect :
    (fd b : ℕ) (bs : List ℕ) (log : ℕ → List ℕ)
    → let (r, after) = send_logged fd (b ∷ bs) log in Effect fd (b ∷ bs) log after r
send_logged-Effect fd b bs log = elim (Bool-cases (fd == 4)) [
  | inl e ↦ rw e (λ other. refl)
  | inr e ↦ rw e (omega arith, omega arith, ground arith, λ other ne. ground arith)
]

broadcast_accounts_example :
    let (after, log) = broadcast send_logged (1 ∷ 2 ∷ 3 ∷ []) (two_clients, λ fd. []) in
    (n : ℕ) × (n ≤ 3)
    × (log 7 ≡ [] ++ take n (1 ∷ 2 ∷ 3 ∷ []))
    × ((find 7 after.clients ≡ some (account (new_client 7) n 3))
        ⊎ ((find 7 after.clients ≡ none) × (n < 3)))
broadcast_accounts_example =
    broadcast_accounts send_logged (λ log. log) send_logged-Effect (1 ∷ 2 ∷ 3 ∷ []) two_clients
      (λ fd. []) 7 (new_client 7) (refl, (refl, tt)) refl
