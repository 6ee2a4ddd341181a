-- ===== src/Packet/Fields.antt =====
-- src/ccrtp/rtppkt.h: the setters of OutgoingRTPPkt, and the packet as `putData` of
-- src/outqueue.cpp fills it in.
use ccrtp.Prelude.{ℕ, ◌/◌, ◌%◌, ◌^◌, Bool}
use ccrtp.Packet.{RtpPacket, set_bytes, write, set_payload, set_marker, to_nat}

-- The bytes of the fixed header behind the first one, as the setters write them.
abbrev pub write_payload_type : (ℕ → ℕ) → ℕ → ℕ → ℕ
write_payload_type mem pt = write mem 1 (set_payload pt (mem 1))

abbrev pub write_seq_num : (ℕ → ℕ) → ℕ → ℕ → ℕ
write_seq_num mem seq = write (write mem 2 (seq / 256 % 256)) 3 (seq % 256)

abbrev pub write_timestamp : (ℕ → ℕ) → ℕ → ℕ → ℕ
write_timestamp mem ts =
    write
      (write (write (write mem 4 (ts / 2 ^ 24 % 256)) 5 (ts / 2 ^ 16 % 256)) 6 (ts / 2 ^ 8 % 256)) 7
      (ts % 256)

-- `setSSRCNetwork(htonl(ssrc))`
abbrev pub write_ssrc : (ℕ → ℕ) → ℕ → ℕ → ℕ
write_ssrc mem ssrc =
    write
      (write (write (write mem 8 (ssrc / 2 ^ 24 % 256)) 9 (ssrc / 2 ^ 16 % 256)) 10
        (ssrc / 2 ^ 8 % 256))
      11 (ssrc % 256)

abbrev pub write_marker : (ℕ → ℕ) → Bool → ℕ → ℕ
write_marker mem mark = write mem 1 (set_marker (to_nat mark) (mem 1))

-- The fields that a sender gives.
pub record Fields : Type 0 where
  pub payload_type : ℕ
  pub seq_num : ℕ
  pub timestamp : ℕ
  pub ssrc : ℕ
  pub marker : Bool

-- The setters in the order in which `putData` and `sendImmediate` call them.
unfoldable pub write_fields : (ℕ → ℕ) → Fields → ℕ → ℕ
write_fields mem f =
    write_marker
      (write_ssrc
        (write_timestamp (write_seq_num (write_payload_type mem f.payload_type) f.seq_num)
          f.timestamp)
        f.ssrc)
      f.marker

unfoldable pub set_fields : RtpPacket → Fields → RtpPacket
set_fields p f = set_bytes p (write_fields p.buffer.bytes f)
