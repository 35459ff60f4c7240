-- ===== src/Server/Messages.antt =====
-- sigmadsp/sigmastudio/common.py: what the TCP server and the backend exchange over the queues.
-- `SafeloadRequest` is a subclass of `WriteRequest`; `connection_closed` is the value `None`.
use sigmadsp.Prelude.{ℕ, Bool, true, false, List}
use sigmadsp.Prelude.Int.{ℤ}

pub data Message : Type 0 where
  write_request safeload_request : ℤ → List ℕ → Message
  read_request : ℤ → ℤ → Message
  connection_closed : Message

pub data MessageClass : Type 0 where
  write_class safeload_class read_class : MessageClass

-- `isinstance(message, cls)`, with the subclass.
unfoldable pub is_instance : Message → MessageClass → Bool
is_instance (write_request _ _) write_class = true
is_instance (safeload_request _ _) write_class = true
is_instance (safeload_request _ _) safeload_class = true
is_instance (read_request _ _) read_class = true
is_instance _ _ = false
