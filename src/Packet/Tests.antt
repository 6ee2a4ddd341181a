-- ===== src/Packet/Tests.antt =====
-- Packets on concrete fields and bytes.
use ccrtp.Prelude.{◌+◌, ◌≡◌, some, ℕ, refl, List, [], ◌∷◌, true, none, get_or, arith}
use ccrtp.Packet.{Buffer, RtpPacket, outgoing_extended}
use ccrtp.Packet.Incoming.{take_in}
use ccrtp.Packet.Received.{take_in-padded}
use ccrtp.Packet.Fields.{Fields, set_fields}
use ccrtp.Packet.RoundTrip.{Fits, Taken}
use ccrtp.Packet.Delivery.{outgoing_extended-Taken}

-- Memory that has been used before.
abbrev dirty : ℕ → ℕ
dirty j = 165

abbrev fields : Fields
fields = record {
  payload_type = 96;
  seq_num = 65535;
  timestamp = 305419896;
  ssrc = 3735928559;
  marker = true;
}

fields-Fits : Fits fields
fields-Fits = record {
  payload_type = omega arith;
  not_rtcp = refl;
  seq_num = omega arith;
  timestamp = omega arith;
  ssrc = omega arith;
}

abbrev payload : List ℕ
payload = 1 ∷ 2 ∷ 3 ∷ 4 ∷ 5 ∷ []

abbrev sources : List ℕ
sources = 7 ∷ 4294967295 ∷ []

abbrev hdrext : List ℕ
hdrext = 190 ∷ 222 ∷ 0 ∷ 1 ∷ 9 ∷ 9 ∷ 9 ∷ 9 ∷ []

outgoing_extended-Taken_example :
    Taken
      (set_fields (outgoing_extended dirty sources hdrext payload 0 none) fields).buffer
      (set_fields (outgoing_extended dirty sources hdrext payload 0 none) fields).total
      fields
      2
      payload
outgoing_extended-Taken_example =
    outgoing_extended-Taken dirty sources payload fields fields-Fits hdrext 1 (omega arith) refl
      refl (omega arith)

-- A padded packet of 20 bytes: a payload of 5 bytes and 3 bytes of padding.
abbrev padded : Buffer
padded = record {
  size = 20;
  bytes = λ j.
      get_or (160 ∷ 96 ∷ 0 ∷ 1 ∷ 0 ∷ 0 ∷ 0 ∷ 9 ∷ 0 ∷ 0 ∷ 0 ∷ 7 ∷ 1 ∷ 2 ∷ 3 ∷ 4 ∷ 5 ∷ 0 ∷ 0 ∷ 3 ∷ [])
        j 0;
}

take_in-padded_example :
    (q : RtpPacket) × (take_in padded 20 ≡ some (some q)) × (q.payload_size ≡ 8 + padded.bytes 7)
take_in-padded_example =
    take_in-padded padded 20 8 (omega arith) (omega arith) refl (omega arith) refl refl refl refl
      (omega arith)
