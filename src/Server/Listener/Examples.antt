-- ===== src/Server/Listener/Examples.antt =====
-- The simulator's start where `listen` is refused.
use market_data_handle.Prelude.{◌≡◌, refl, true, false, some, [], ◌∷◌, member, erase, member-erase}
use market_data_handle.Client.Socket.Local.{
  Local, open_fresh, next_accept, next_accept_keeps, open_fresh-Opens,
}
use market_data_handle.Server.Listener.{ServerKernel, ServerDescriptors, no_listen, init, start}

abbrev pub server_kernel : ServerKernel Local
server_kernel = record {
  socket = open_fresh;
  set_option = λ fd o v w. (true, w);
  bind = λ fd p w. next_accept w;
  listen = λ fd n w. next_accept w;
  get_flags = λ fd w. (some 2, w);
  set_flags = λ fd f w. (true, w);
  epoll_create = open_fresh;
  epoll_add = λ e fd w. w;
  close = λ fd w. record w { open_fds = erase fd w.open_fds };
}

abbrev pub server_descriptors : ServerDescriptors server_kernel
server_descriptors = record {
  is_open = λ w d. member d w.open_fds;
  socket_opens = open_fresh-Opens;
  epoll_create_opens = open_fresh-Opens;
  close_closes = λ fd w d. member-erase fd d w.open_fds;
  set_option_keeps = λ fd o v w d. refl;
  bind_keeps = λ fd p w d. next_accept_keeps w d;
  listen_keeps = λ fd n w d. next_accept_keeps w d;
  get_flags_keeps = λ fd w d. refl;
  set_flags_keeps = λ fd f w d. refl;
  epoll_add_keeps = λ e fd w d. refl;
}

abbrev pub outside : Local
outside = record { open_fds = 2 ∷ 1 ∷ 0 ∷ []; accepts = true ∷ false ∷ []; answers = [] }

start_run : start server_kernel (init 9876, outside) ≡ (
  some no_listen,
  (
    record (init 9876) { server_fd = some 3 },
    record outside { open_fds = 3 ∷ 2 ∷ 1 ∷ 0 ∷ []; accepts = [] },
  ),
)
unfolding start
start_run = refl
