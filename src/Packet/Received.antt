-- ===== src/Packet/Received.antt =====
-- src/rtppkt.cpp: what IncomingRTPPkt and `reComputePayLength` do with lengths that come from the
-- network.
use ccrtp.Prelude.{ℕ, ◌+◌, ◌-◌, ◌*◌, ◌%◌, ◌^◌, ◌≤◌, ◌<◌, ◌≡◌, true, false, some, ◌==◌, arith}
use ccrtp.Packet.{
  Buffer, read, RtpPacket, padding_of, extension_of, cc_of, version_of, payload_of, set_padding,
  write, set_bytes,
}
use ccrtp.Packet.Incoming.{
  header_size, unpadded_size, received_packet, recompute_payload_length, incoming, is_rtcp_type,
  Cached, take_in, clear_padding,
}

-- A packet whose header, by its CSRC count and extension, is longer than the packet itself is
-- taken, with a payload size that wraps below 0 to more than 2^31.
pub received_packet-short :
    (block : Buffer) (len hdr : ℕ)
    → header_size block ≡ some hdr
    → padding_of (block.bytes 0) ≡ 0
    → 1 ≤ block.size
    → len < hdr
    → hdr < 2 ^ 31
    → (p : RtpPacket) × (received_packet block len ≡ some p)
      × (p.payload_size ≡ 2 ^ 32 + len - hdr)
      × (2 ^ 31 < p.payload_size)
unfolding received_packet unpadded_size
received_packet-short block len hdr e unpadded size short bound =
    let p : RtpPacket = record {
      buffer = block;
      hdr_size = hdr;
      payload_size = 2 ^ 32 + len - hdr;
      total = len;
      srtp_length = 0;
      srtp_data_offset = 0;
    } in
    (p, ground (arith, e), ground arith, ground arith)

-- A valid packet without extension and with `n` bytes behind its header, of `size` bytes.
module _ (block : Buffer) (len n : ℕ) (size : len ≤ block.size) (small : len < 2 ^ 31)
    (sum : len ≡ 12 + cc_of (block.bytes 0) * 4 + n) (plain : extension_of (block.bytes 0) ≡ 0)
    (unpadded : padding_of (block.bytes 0) ≡ 0) where
  header_size-plain : header_size block ≡ some (12 + cc_of (block.bytes 0) * 4)
  unfolding header_size
  header_size-plain = ground arith

  received_packet-plain :
      received_packet block len
      ≡ some (record {
        buffer = block;
        hdr_size = 12 + cc_of (block.bytes 0) * 4;
        payload_size = n;
        total = len;
        srtp_length = 0;
        srtp_data_offset = 0;
      })
  unfolding received_packet unpadded_size
  received_packet-plain = rw header_size-plain (ground arith)

  incoming-plain :
      version_of (block.bytes 0) ≡ 2
      → is_rtcp_type (payload_of (block.bytes 1)) ≡ false
      → (c : Cached) × (incoming block len
          ≡ some (record {
            packet = record {
              buffer = block;
              hdr_size = 12 + cc_of (block.bytes 0) * 4;
              payload_size = n;
              total = len;
              srtp_length = 0;
              srtp_data_offset = 0;
            };
            cached = some c;
          }))
  unfolding incoming
  incoming-plain v t = (
    record {
      seq_num = block.bytes 2 * 256 + block.bytes 3;
      timestamp =
          (block.bytes 4 * 256 + block.bytes 5) * 2 ^ 16 + (block.bytes 6 * 256 + block.bytes 7);
      ssrc =
          (block.bytes 8 * 256 + block.bytes 9) * 2 ^ 16 + (block.bytes 10 * 256 + block.bytes 11);
    },
    rw received_packet-plain (ground arith),
  )

recomputed : RtpPacket → RtpPacket
recomputed p = record (set_bytes p (write p.buffer.bytes 0 (set_padding 1 (p.buffer.bytes 0)))) {
  payload_size = p.payload_size + p.buffer.bytes (p.payload_size - 1);
}

recompute-adds :
    (p : RtpPacket)
    → 2 ≤ p.payload_size
    → p.payload_size + 256 < 2 ^ 31
    → p.payload_size ≤ p.buffer.size
    → p.buffer.bytes (p.payload_size - 1) < 256
    → recompute_payload_length p ≡ some (recomputed p)
unfolding recompute_payload_length recomputed
recompute-adds p low small size byte =
    let at : (p.payload_size + 2 ^ 32 - 1) % 2 ^ 32 ≡ p.payload_size - 1 = omega arith in
    rw at (ground arith)

-- A padded packet arrives, without crypto contexts, with a payload size that is not reduced by
-- its padding count but raised, from the `n` bytes behind the header, by the byte at `n - 1` of
-- the packet. The packet is valid and without extension, it has at least 2 bytes behind its
-- header and is shorter than 2^31 - 256 bytes.
pub take_in-padded :
    (block : Buffer) (len n : ℕ)
    → len ≤ block.size
    → len + 256 < 2 ^ 31
    → len ≡ 12 + cc_of (block.bytes 0) * 4 + n
    → 2 ≤ n
    → version_of (block.bytes 0) ≡ 2
    → padding_of (block.bytes 0) ≡ 1
    → extension_of (block.bytes 0) ≡ 0
    → is_rtcp_type (payload_of (block.bytes 1)) ≡ false
    → block.bytes (n - 1) < 256
    → (q : RtpPacket) × (take_in block len ≡ some (some q))
      × (q.payload_size ≡ n + block.bytes (n - 1))
unfolding take_in recomputed
take_in-padded block len n size small sum low v pad x t byte =
    let plain =
      incoming-plain (clear_padding block) len n size (omega arith) (omega arith) (omega arith)
        (omega arith) (omega arith) t in
    let p : RtpPacket = record {
      buffer = clear_padding block;
      hdr_size = 12 + cc_of (block.bytes 0) * 4;
      payload_size = n;
      total = len;
      srtp_length = 0;
      srtp_data_offset = 0;
    } in
    let first : read block 0 ≡ some (block.bytes 0) = ground arith in
    let set : (padding_of (block.bytes 0) == 1) ≡ true = ground arith in
    let last : (clear_padding block).bytes (n - 1) ≡ block.bytes (n - 1) = ground arith in
    let counted = recompute-adds p low (omega arith) (omega arith) (ground arith) in
    (recomputed p, ground (arith, plain.1, first, set, counted), ground arith)
