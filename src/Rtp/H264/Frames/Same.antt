-- ===== src/Rtp/H264/Frames/Same.antt =====
-- pkg/rtp/h264_depacketize.go: `depacketizePayload` does not touch the parameter sets.
use liveforge.Base.{
  ℕ, ◌+◌, ◌-◌, ◌*◌, ◌/◌, ◌%◌, ◌≡◌, refl, Bool, true, false, not, ◌&&◌, ◌||◌, Option, none, some,
  List, leb, ltb, ◌==◌, if◌then◌else◌, length, drop, get_or,
}
use liveforge.Bytes.{Result, ok, err, refuse, is_shorter, Ensures, ensured, refused, Ensures-bind}
use liveforge.Rtp.{Packet}
use liveforge.Rtp.H264.{
  Error, max_nal_bytes, max_fu_fragments, too_long, discontinuous, too_many_fragments, truncated,
  invalid_header, marked_without_end, empty_payload, forbidden_bit, is_other, nal_to_avcc,
  H264Depacketizer, reset_fu, start_fragment, continue_fragment, add_fragment, append_fragment,
  after_fragment, validate_nal, parse_stap, depacketize_fu, depacketize_checked, or_reset,
  depacketize_payload,
}

-- The parameter sets and whether they were sent are as before.
abbrev pub IsSame : H264Depacketizer → H264Depacketizer → Type 0
IsSame d e = (e.sps ≡ d.sps) × (e.pps ≡ d.pps) × (e.config_sent ≡ d.config_sent)

abbrev Any : Error → Type 0
Any e = Unit

any_lem : {A : Type 0} (r : Result Error A) → Ensures Any (λ _. Unit) r
any_lem (ok a) = ensured tt
any_lem (err e) = refused tt

start_lem :
    (d : H264Depacketizer) (p : Packet) (h : ℕ) (fragment : List ℕ)
    → Ensures Any (IsSame d) (start_fragment d p h fragment)
start_lem d p h fragment =
    Ensures-bind (any_lem (refuse (ltb (max_nal_bytes - 1) (length fragment)) too_long))
      (λ _ _. ensured (refl, refl, refl))

continue_lem :
    (d : H264Depacketizer) (buf : Option (List ℕ)) (p : Packet) (h : ℕ) (fragment : List ℕ)
    → Ensures Any (IsSame d) (continue_fragment d buf p h fragment)
continue_lem d none p h fragment = refused tt
continue_lem d (some buf) p h fragment =
    Ensures-bind (any_lem (refuse (is_other d p h buf) discontinuous)) (λ _ _.
      Ensures-bind (any_lem (refuse (leb max_fu_fragments d.fu_fragments) too_many_fragments))
        (λ _ _.
          Ensures-bind
            (any_lem (refuse (ltb max_nal_bytes (length buf + length fragment)) too_long))
            (λ _ _. ensured {a = d} (refl, refl, refl))))

add_lem :
    (is_start : Bool) (d : H264Depacketizer) (p : Packet) (h : ℕ) (fragment : List ℕ)
    → Ensures Any (IsSame d) (add_fragment is_start d p h fragment)
add_lem true d p h fragment = start_lem d p h fragment
add_lem false d p h fragment = continue_lem d d.buf p h fragment

abbrev SameAfter : H264Depacketizer → Option (List ℕ) × H264Depacketizer → Type 0
SameAfter d (output, e) = IsSame d e

after_lem :
    (is_end : Bool) (d e : H264Depacketizer)
    → IsSame d e
    → Ensures Any (SameAfter d) (after_fragment is_end e)
after_lem true d e same = Ensures-bind (any_lem (validate_nal _)) (λ _ _. ensured same)
after_lem false d e same = ensured same

fu_lem : (d : H264Depacketizer) (p : Packet) → Ensures Any (SameAfter d) (depacketize_fu d p)
unfolding depacketize_fu
fu_lem d p =
    let fu : ℕ = get_or p.payload 1 0 in
    let is_start : Bool = leb 128 fu in
    let is_end : Bool = leb 1 (fu / 64 % 2) in
    let kind : ℕ = fu % 32 in
    let h : ℕ = get_or p.payload 0 0 / 32 % 4 * 32 + kind in
    let fragment : List ℕ = drop 2 p.payload in
    Ensures-bind (any_lem (refuse (is_shorter 2 p.payload) truncated)) (λ _ _.
      Ensures-bind
        (any_lem (refuse ((is_start && is_end) || ((kind == 0) || leb 24 kind)) invalid_header))
        (λ _ _. Ensures-bind (any_lem (refuse (p.marker && not is_end) marked_without_end)) (λ _ _.
          Ensures-bind (add_lem is_start d p h fragment)
            (λ e same. after_lem is_end d (append_fragment e p fragment) same))))

choose :
    {A : Type 0} {P : A → Type 0} (b : Bool) {x y : Result Error A}
    → Ensures Any P x
    → Ensures Any P y
    → Ensures Any P (if b then x else y)
choose true p q = p
choose false p q = q

checked_lem :
    (d : H264Depacketizer) (p : Packet) → Ensures Any (SameAfter d) (depacketize_checked d p)
unfolding depacketize_checked
checked_lem d p =
    let kind : ℕ = get_or p.payload 0 0 % 32 in
    Ensures-bind (any_lem (refuse (is_shorter 1 p.payload) empty_payload)) (λ _ _.
      Ensures-bind (any_lem (refuse (leb 128 (get_or p.payload 0 0)) forbidden_bit)) (λ _ _.
        choose (ltb 0 kind && ltb kind 24)
          (Ensures-bind (any_lem (validate_nal p.payload))
            (λ _ _. ensured {a = (some (nal_to_avcc p.payload), reset_fu d)} (refl, refl, refl)))
          (choose (kind == 24)
            (Ensures-bind (any_lem (parse_stap p.payload))
              (λ nals _. ensured {a = (some nals, reset_fu d)} (refl, refl, refl)))
            (choose (kind == 28) (fu_lem d p) (refused tt)))))

reset_lem :
    (d : H264Depacketizer) {x : Result Error (Option (List ℕ) × H264Depacketizer)}
    → Ensures Any (SameAfter d) x
    → IsSame d ((or_reset d x).1)
reset_lem d (ensured {a = (output, e)} same) = same
reset_lem d (refused _) = (refl, refl, refl)

pub payload_lem : (d : H264Depacketizer) (p : Packet) → IsSame d ((depacketize_payload d p).1)
unfolding depacketize_payload
payload_lem d p = reset_lem d (checked_lem d p)
