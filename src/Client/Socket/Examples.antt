-- ===== src/Client/Socket/Examples.antt =====
-- The theorems about the socket at concrete runs.
use market_data_handle.Prelude.{
  ◌≤◌, ◌≡◌, ◌⊎◌, refl, true, false, some, List, [], ◌∷◌, ◌||◌, length, arith,
}
use market_data_handle.Client.Kernel.{received, end_of_stream}
use market_data_handle.Client.Socket.{
  Retry, RetryEnd, init, connect, disconnect, receive, send_subscription, connect_with_retry,
}
use market_data_handle.Client.Socket.Local.{Local, local_kernel, local_descriptors}
use market_data_handle.Client.Socket.Tidy.{owns}
use market_data_handle.Client.Socket.Descriptors.{
  Use, use_connect, use_receive, use_send, use_all, use_all_no_leak,
}
use market_data_handle.Client.Socket.Retries.{doubling, connect_with_retry_ends}

-- The descriptors 0 to 2 are open; the first two connections are refused.
abbrev outside : Local
outside = record {
  open_fds = 2 ∷ 1 ∷ 0 ∷ [];
  accepts = false ∷ false ∷ [];
  answers = received (1 ∷ []) ∷ end_of_stream ∷ [];
}

abbrev uses : List Use
uses =
    use_connect [] 9876 5000
    ∷ use_connect [] 9876 5000
    ∷ use_connect [] 9876 5000
    ∷ use_send (7 ∷ [])
    ∷ use_receive 10
    ∷ use_connect [] 9876 5000
    ∷ []

use_all_run : (use_all local_kernel uses (init, outside)).1.open_fds ≡ 5 ∷ 4 ∷ 2 ∷ 1 ∷ 0 ∷ []
unfolding use_all connect receive send_subscription
use_all_run = refl

use_all_no_leak_example :
    let (s, w1) = use_all local_kernel uses (init, outside) in
    (local_descriptors.is_open w1 4 ≡ (local_descriptors.is_open outside 4 || owns s 4))
    × (local_descriptors.is_open (disconnect local_kernel (s, w1)).1 4
        ≡ local_descriptors.is_open outside 4)
use_all_no_leak_example = use_all_no_leak local_kernel local_descriptors uses outside 4

abbrev retry : Retry
retry = record { host = []; port = 9876; max_retries = 10; base_backoff_ms = 200 }

connect_with_retry_ends_example :
    (end : RetryEnd Local) × (connect_with_retry local_kernel 11 retry (init, outside) ≡ some end)
    × (length end.waits ≤ 10)
    × (end.waits ≡ doubling (length end.waits) 200)
    × (((end.ok ≡ true) × (end.state.0.connected ≡ true))
        ⊎ ((end.ok ≡ false) × (length end.waits ≡ 10)))
connect_with_retry_ends_example =
    connect_with_retry_ends local_kernel retry 11 init outside (omega arith) (omega arith)
