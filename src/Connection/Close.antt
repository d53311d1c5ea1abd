-- ===== src/Connection/Close.antt =====
-- Closing a connection.
use aether_protocol.Prelude.{◌≡◌, refl}
use aether_protocol.Errors.{Error, Result, err, CloseCode}
use aether_protocol.Framing.Frame.{Frame}
use aether_protocol.Crypto.{Primitives}
use aether_protocol.Connection.State.{Connection, closing, is_active}
use aether_protocol.Connection.Transfer.{send_frame, close_connection}

-- In every state of the connection and for every answer of the socket, `close` is an error, sends
-- no packet, and changes the state to closing and nothing else; from then on every frame and every
-- further `close` is refused.
pub close_connection-fails :
    (prims : Primitives) (io : Result (Unit {0})) (conn : Connection) (code : CloseCode)
    → let closed = (close_connection prims io conn code).0 in
      (close_connection prims io conn code
        ≡ (record conn { state = closing }, err Error.invalid_state))
      × ((io' : Result (Unit {0})) (frame : Frame)
          → send_frame prims io' closed frame ≡ (closed, err Error.invalid_state))
      × ((io' : Result (Unit {0})) (code' : CloseCode)
          → close_connection prims io' closed code' ≡ (closed, err Error.invalid_state))
unfolding close_connection send_frame is_active
close_connection-fails prims io conn code = (refl, λ io' frame. refl, λ io' code'. refl)
