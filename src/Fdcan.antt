-- ===== src/Fdcan.antt =====
-- boards/nucleo_h7s3l8/src/hal_can_fdcan.c: the CAN interface on the FDCAN of the chip. What the vendor
-- HAL answers is an argument; what is handed to it is part of the result.
pub mod Setup
pub mod Start
pub mod Msp
use robot_joint_stack.Prelude.{
  ℕ, ◌+◌, Bool, true, false, not, ◌&&◌, ◌||◌, if◌then◌else◌, ltb, ◌==◌, Option, none, some, List,
  [], ◌∷◌,
}
use robot_joint_stack.Prelude.Word.{u8, u16, u32}
use robot_joint_stack.Hal.{CanFrame, CanStatus, CanResult, ok, err_param, err_busy}
use robot_joint_stack.Protocol.Dlc.{fd_len_to_dlc, fd_dlc_to_len}

-- The counters of the driver, each a uint32_t.
pub record Driver : Type 0 where
  pub tx_dropped : ℕ
  pub rx_overrun : ℕ
  pub bus_off_count : ℕ

-- The fields of the header that depend on the frame, with the payload.
pub record TxMessage : Type 0 where
  pub identifier : ℕ
  pub data_length : ℕ
  pub bit_rate_switch : Bool
  pub fd_format : Bool
  pub payload : List ℕ

abbrev pub tx_message : CanFrame → TxMessage
tx_message f = record {
  identifier = f.id;
  data_length = fd_len_to_dlc f.len;
  bit_rate_switch = f.fd && f.brs;
  fd_format = f.fd;
  payload = f.payload;
}

abbrev count_drop : Driver → Driver
count_drop d = record d { tx_dropped = u32 (d.tx_dropped + 1) }

-- `rjs_can_send`: `free` is the free level of the transmit FIFO and `added` whether the HAL takes the
-- message. The result has the message that was handed over and taken.
unfoldable pub fdcan_send :
    Driver → ℕ → Bool → Option CanFrame → CanResult × Driver × Option TxMessage
fdcan_send d free added none = (err_param, d, none)
fdcan_send d free added (some f) =
    if ltb 0x7ff f.id || ((fd_len_to_dlc f.len == 0xff) || (not f.fd && ltb 8 f.len))
    then (err_param, d, none)
    else if free == 0
    then (err_busy, count_drop d, none)
    else if not added
    then (err_busy, count_drop d, none)
    else (ok, d, some (tx_message f))

-- `rjs_can_get_status`, from the error counters and the protocol status of the HAL.
unfoldable pub get_status : Driver → ℕ → ℕ → ℕ → ℕ → CanStatus
get_status d tx_errors rx_errors error_passive bus_off = record {
  tx_error_count = u8 tx_errors;
  rx_error_count = u8 (if ltb 255 rx_errors then 255 else rx_errors);
  error_passive = not (error_passive == 0);
  bus_off = not (bus_off == 0);
  tx_dropped = d.tx_dropped;
  rx_overrun = d.rx_overrun;
}

-- A message that the HAL has received.
pub record RxMessage : Type 0 where
  pub identifier : ℕ
  pub data_length : ℕ
  pub bit_rate_switch : Bool
  pub fd_format : Bool
  pub payload : List ℕ

unfoldable pub frame_of : RxMessage → CanFrame
frame_of m =
    let len = fd_dlc_to_len (u8 m.data_length) in
    record {
      id = u16 m.identifier;
      len = if len == 0xff then 0 else len;
      fd = m.fd_format;
      brs = m.bit_rate_switch;
      payload = m.payload;
    }

-- The loop over the receive FIFO: what `HAL_FDCAN_GetRxMessage` gives while the FIFO is not empty,
-- none for an error. The result is the frames that the callback is given.
unfoldable pub rx_loop : List (Option RxMessage) → List CanFrame
unfolding frame_of
rx_loop [] = []
rx_loop (none ∷ ms) = []
rx_loop (some m ∷ ms) = frame_of m ∷ rx_loop ms

-- `HAL_FDCAN_RxFifo0Callback` with the two flags that it tests, the callback being set.
unfoldable pub rx_callback : Driver → Bool → Bool → List (Option RxMessage) → Driver × List CanFrame
unfolding rx_loop
rx_callback d message_lost new_message fifo =
    let d' = if message_lost then record d { rx_overrun = u32 (d.rx_overrun + 1) } else d in
    if not new_message then (d', []) else (d', rx_loop fifo)

-- `HAL_FDCAN_ErrorStatusCallback`: the flag that it tests, and the protocol status if the HAL gives
-- it. The result says whether the INIT bit is cleared.
unfoldable pub error_callback : Driver → Bool → Option ℕ → Driver × Bool
error_callback d bus_off_it none = (d, false)
error_callback d bus_off_it (some bus_off) =
    if bus_off_it && not (bus_off == 0)
    then (record d { bus_off_count = u32 (d.bus_off_count + 1) }, true)
    else (d, false)
