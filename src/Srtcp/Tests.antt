-- ===== src/Srtcp/Tests.antt =====
-- Protected RTCP packets with a small cipher and MAC.
use ccrtp.Prelude.{◌≡◌, refl, inr, [], some, ◌>>=◌, arith}
use ccrtp.CryptoCtrl.{check_replay}
use ccrtp.Packet.Memory.{slice}
use ccrtp.Cipher.Samples.{sample_key, sample_memory}
use ccrtp.Session.Samples.{toy_mac}
use ccrtp.Srtcp.{protect, unprotect, accepted, forged, mac_tag}
use ccrtp.Srtcp.Samples.{sender, receiver, moved, moves, fresh, keyed}
use ccrtp.Srtcp.Delivery.{delivered, unprotect-protect_control}
use ccrtp.Srtcp.Refusal.{IsJudged, unprotect-IsJudged}

unprotect-protect_control_example :
    (protect sender 6 [] sample_memory 28 >>= λ s.
    unprotect receiver [] [] s.mem s.len >>= λ r. some (delivered 28 r))
    ≡ some (accepted 28, (slice sample_memory 0 28, record receiver { control = moved }))
unprotect-protect_control_example =
    unprotect-protect_control sender receiver [] [] [] sample_memory 28 6 moved
      (record { ealg = refl; aalg = refl; tag_length = refl; keys = refl }) (inr (refl, (_, refl)))
      (inr (keyed, omega arith, (toy_mac sample_key, refl, λ m. refl))) refl (omega arith)
      (omega arith) (omega arith) (fresh 7) (moves 7)

-- Bytes that nobody signed.
judges :
    unprotect receiver [] [] sample_memory 42
    ≡ some (record { verdict = forged; mem = sample_memory; context = receiver })
unfolding unprotect check_replay mac_tag slice
judges = refl

unprotect-IsJudged_example :
    IsJudged receiver [] sample_memory 42
      (record { verdict = forged; mem = sample_memory; context = receiver })
unprotect-IsJudged_example = unprotect-IsJudged receiver [] [] sample_memory 42 _ judges
