-- ===== src/Cobs/Tests.antt =====
-- Tests of the framing on small payloads.
use toob_loader.Common.{◌≢◌, ℕ, ◌-◌, ◌≡◌, refl, List, [], ◌∷◌, ◌++◌, length, replicate, map, arith}
use toob_loader.Status.{ok}
use toob_loader.Common.{some}
use toob_loader.Status.{stuck}
use toob_loader.Cobs.{marker, send_frame, decode_in_place, byte, recv_frame}
use toob_loader.Cobs.InPlace.{decode_in_place_lem, outcome}
use toob_loader.Cobs.Reference
use toob_loader.Cobs.RoundTrip.{survives}
use toob_loader.Cobs.Wire.{send-recv-decode}
use toob_loader.Cobs.Lost.{send_frame-append_zero}

abbrev payload : List ℕ
payload = 1 ∷ (0 ∷ (2 ∷ (3 ∷ [])))

send-recv-decode_example :
    (sent : List ℕ) × (send_frame payload ≡ some (marker ∷ (sent ++ (marker ∷ []))))
    × (recv_frame (map byte (marker ∷ (sent ++ (marker ∷ [])))) 16 ≡ ok (some sent))
    × (decode_in_place sent
        ≡ ok (payload ++ replicate (length sent - length payload) 0, length payload))
send-recv-decode_example =
    send-recv-decode payload 16 (omega arith)
      (omega arith, (omega arith, (omega arith, (omega arith, tt)))) (unfold survives in refl)
      (omega arith)

abbrev frame : List ℕ
frame = 2 ∷ (1 ∷ (3 ∷ (2 ∷ (3 ∷ []))))

decode_in_place_lem_example :
    (decode_in_place frame ≡ outcome (length frame) (Reference.decode (length frame) frame))
    × (decode_in_place frame ≢ stuck)
decode_in_place_lem_example = decode_in_place_lem frame (omega arith)

send_frame-append_zero_example : send_frame (payload ++ (0 ∷ [])) ≡ send_frame payload
send_frame-append_zero_example = send_frame-append_zero payload refl
