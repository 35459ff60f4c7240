-- ===== src/Backend/Requests.antt =====
-- `BackendService.sigma_studio_worker` of sigmadsp/backend.py: the requests of SigmaStudio.
use sigmadsp.Prelude.{ℕ, Bool, true, false, List, [], ◌∷◌, ◌++◌, length, if◌then◌else◌}
use sigmadsp.Prelude.Int.{ℤ, pos}
use sigmadsp.Prelude.Result.{ok, type_error}
use sigmadsp.Prelude.Exec.{Exec, pure, raise, modify, ◌>>=◌, ◌>>◌}
use sigmadsp.Conversion.Fixpoint.{FloatOps}
use sigmadsp.Protocol.{Hardware}
use sigmadsp.Dsp.{Dsp, VolumeOps, write, read}
use sigmadsp.Server.Messages.{
  Message, write_request, safeload_request, read_request, connection_closed, write_class,
  safeload_class, read_class, is_instance,
}

module _ (ops : FloatOps) (volume : VolumeOps ops) (hw : Hardware) (dsp : Dsp ops hw) where
  open ops use {Float}
  open hw use {Device}

  -- The queues to and from the TCP server, and the DSP.
  pub record WorkerState : Type 0 where
    pub receive_queue : List Message
    pub send_queue : List (List ℕ)
    pub device : Device

  -- A call of the DSP.
  abbrev pub on_device : {A : Type 0} → Exec Device A → Exec WorkerState A
  on_device m s = let (r, d) = m s.device in (r, record s { device = d })

  abbrev put_response : List ℕ → Exec WorkerState (Unit {0})
  put_response payload = modify (λ s. record s { send_queue = s.send_queue ++ payload ∷ [] })

  -- `request.address` and `request.data`
  abbrev address_of : Message → ℤ
  address_of (write_request address _) = address
  address_of (safeload_request address _) = address
  address_of (read_request address _) = address
  address_of connection_closed = pos 0

  abbrev data_of : Message → List ℕ
  data_of (write_request _ bytes) = bytes
  data_of (safeload_request _ bytes) = bytes
  data_of _ = []

  abbrev length_of : Message → ℤ
  length_of (read_request _ length) = length
  length_of _ = pos 0

  abbrev is_closed : Message → Bool
  is_closed connection_closed = true
  is_closed _ = false

  -- A request of the queue, by its class: the tests stand in the order of the source.
  unfoldable pub serve_request : Message → Exec WorkerState (Unit {0})
  unfolding is_instance
  serve_request request =
      if is_closed request
      then pure tt
      else if is_instance request write_class
      then on_device (write hw (address_of request) (data_of request))
      else if is_instance request safeload_class
      then on_device (dsp.safeload (address_of request) (data_of request))
      else if is_instance request read_class
      then (on_device (read hw (address_of request) (length_of request)) >>= put_response)
      else raise type_error

  -- `sigma_studio_worker` until the queue is empty and `get` waits, or a call raises; only an
  -- EOFError of a closed queue is caught, and none is closed here.
  unfoldable pub work_on : List Message → Exec WorkerState (Unit {0})
  unfolding serve_request
  work_on [] s = (ok tt, s)
  work_on (request ∷ requests) s =
      (modify (λ t. record t { receive_queue = requests })
          >> (serve_request request >> work_on requests))
        s

  unfoldable pub sigma_studio_worker : Exec WorkerState (Unit {0})
  unfolding work_on
  sigma_studio_worker s = work_on s.receive_queue s
