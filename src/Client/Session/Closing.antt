-- ===== src/Client/Session/Closing.antt =====
-- What the receive loop does when the connection is closed.
use market_data_handle.Parser.{Parser}
use market_data_handle.Client.{Client}
use market_data_handle.Client.Kernel.{Kernel}
use market_data_handle.Client.Socket.{Socket}
