-- ===== src/Sv2/Decode/Runs.antt =====
-- A concrete frame, and the theorems at concrete inputs.
use supryolo.Base.{◌≡◌, refl, arith, ◌∷◌, some, replicate, All, ok}
use supryolo.Base.Bytes.{IsByte}
use supryolo.Words.{le_bytes}
use supryolo.Sv2.Types.{Frame, Message, new_job}
use supryolo.Sv2.Decode.{decode}
use supryolo.Sv2.Decode.Format.{frame_of, payload_of, ntime_field, type_of, extension_of, IsMessage}
use supryolo.Sv2.Decode.Sound.{frame_of-decode}
use supryolo.Sv2.Decode.Complete.{decode-frame_of}

abbrev active_job : Message
active_job =
    new_job (record { channel = 7; job = 258; ntime = some 3; version = 2; root = replicate 32 5 })

active_job-IsMessage : IsMessage active_job
unfolding IsMessage
active_job-IsMessage = omega arith

abbrev wire_frame : Frame
wire_frame = record {
  extension = 0x8000;
  type = 0x15;
  payload = 7 ∷ 0 ∷ 0 ∷ 0 ∷ 2 ∷ 1 ∷ 0 ∷ 0 ∷ 1 ∷ 3 ∷ 0 ∷ 0 ∷ 0 ∷ 2 ∷ 0 ∷ 0 ∷ 0 ∷ replicate 32 5;
}

wire_frame-is : frame_of active_job ≡ wire_frame
unfolding frame_of payload_of ntime_field type_of extension_of le_bytes
wire_frame-is = refl

decode-frame_of_example : decode (frame_of active_job) ≡ ok active_job
decode-frame_of_example = decode-frame_of active_job active_job-IsMessage

wire_frame_ok : decode wire_frame ≡ ok active_job
wire_frame_ok = rw wire_frame-is at (decode-frame_of active_job active_job-IsMessage)

wire_frame-IsByte : All IsByte wire_frame.payload
wire_frame-IsByte = omega arith

frame_of-decode_example : (wire_frame ≡ frame_of active_job) × IsMessage active_job
frame_of-decode_example = frame_of-decode wire_frame active_job wire_frame-IsByte wire_frame_ok
