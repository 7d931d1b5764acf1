-- ===== src/Proxy/ServerProxy/Filter.antt =====
-- The filter of the server's packets: each place of the metadata is replaced, and nothing else.
use factorio_multiplayer_cac.Common.{
  ℕ, ◌+◌, ◌<◌, ◌≡◌, refl, sym, ap, ◌∙◌, false, Option, none, some, List, [], ◌∷◌, ◌++◌,
  append_assoc, length, length-append, drop, take-length-append, drop-length-append, ==_iff, le→leb,
  arith,
}
use mathlib.Core.Path.{subst}
use factorio_multiplayer_cac.Crates.Memmem.{Memmem, starts_with, IsWithout, IsFound}
use factorio_multiplayer_cac.Dedup.{ok}
use factorio_multiplayer_cac.Proxy.ServerProxy.Phases.{
  FilteringPacketsState, copy_from_slice, get_or_insert, replace_loop, filter_packet,
}

module _ (needle replace_with : List ℕ) where
  -- The output is the input with the needle replaced behind each of the gaps, which are those of
  -- its places from left to right.
  abbrev pub IsReplaced : List (List ℕ) → List ℕ → List ℕ → Type 0
  IsReplaced [] bytes out = IsWithout needle bytes × (out ≡ bytes)
  IsReplaced (before ∷ gaps) bytes out =
      (rest : List ℕ) × (out_rest : List ℕ) × (bytes ≡ before ++ (needle ++ rest))
      × (out ≡ before ++ (replace_with ++ out_rest))
      × ((j : ℕ) → j < length before → starts_with needle (drop j bytes) ≡ false)
      × IsReplaced gaps rest out_rest

  length-IsReplaced :
      (gaps : List (List ℕ)) (bytes out : List ℕ)
      → length replace_with ≡ length needle
      → IsReplaced gaps bytes out
      → length out ≡ length bytes
  length-IsReplaced [] bytes out same (without, e) = ap length e
  length-IsReplaced (before ∷ gaps) bytes out same (rest, out_rest, whole, replaced, first, r) =
      omega (
        arith,
        same,
        ap length whole,
        ap length replaced,
        length-IsReplaced gaps rest out_rest same r,
        length-append before (needle ++ rest),
        length-append needle rest,
        length-append before (replace_with ++ out_rest),
        length-append replace_with out_rest,
      )

copy_from_slice_lem :
    (front old back src : List ℕ)
    → length src ≡ length old
    → copy_from_slice (front ++ (old ++ back)) (length front) (length old) src
      ≡ ok (front ++ (src ++ back))
unfolding copy_from_slice
copy_from_slice_lem front old back src same =
    rw
      (
        le→leb (length front + length old) (length (front ++ (old ++ back)))
            (omega (arith, length-append front (old ++ back), length-append old back)),
        (==_iff (length src) (length old)).1 same,
        take-length-append front (old ++ back),
      )
      (ap (λ (t : List ℕ). ok (front ++ (src ++ t)))
        ((λ i. drop (sym (length-append front old) i) (sym (append_assoc front old back) i))
          ∙ drop-length-append (front ++ old) back))

-- The packet is copied when there is something to replace.
abbrev IsTouched : List (List ℕ) → Option (List ℕ) → Option (List ℕ) → Type 0
IsTouched [] new new' = new' ≡ new
IsTouched (before ∷ gaps) new new' = (buf : List ℕ) × (new' ≡ some buf)

IsTouched-some :
    (gaps : List (List ℕ)) (b : List ℕ) (new' : Option (List ℕ))
    → IsTouched gaps (some b) new'
    → (buf : List ℕ) × (new' ≡ some buf)
IsTouched-some [] b new' e = (b, e)
IsTouched-some (before ∷ gaps) b new' h = h

replace_loop_lem :
    (state : FilteringPacketsState) (packet : List ℕ) (new : Option (List ℕ)) (front bytes : List ℕ)
    (positions : List ℕ)
    → length state.replace_with ≡ length state.needle
    → get_or_insert packet new ≡ front ++ bytes
    → IsFound state.needle (length front) bytes positions
    → (gaps : List (List ℕ)) × (new' : Option (List ℕ)) × (out : List ℕ) × (replace_loop state
          packet positions new
        ≡ ok new')
      × (get_or_insert packet new' ≡ front ++ out)
      × IsTouched gaps new new'
      × IsReplaced state.needle state.replace_with gaps bytes out
unfolding replace_loop
replace_loop_lem state packet new front bytes [] same at found =
    ([], new, bytes, refl, at, refl, (found, refl))
replace_loop_lem state packet new front bytes (pos ∷ positions) same at
      (before, rest, pos_is, whole, first, found) =
    let needle : List ℕ = state.needle in
    let with : List ℕ = state.replace_with in
    let seen : List ℕ = front ++ before in
    let next : List ℕ = seen ++ (with ++ rest) in
    let step : copy_from_slice (get_or_insert packet new) pos (length needle) with ≡ ok next =
      (λ i.
        copy_from_slice
          ((at ∙ ap (λ t. front ++ t) whole ∙ sym (append_assoc front before (needle ++ rest))) i)
          ((pos_is ∙ sym (length-append front before)) i) (length needle) with)
      ∙ copy_from_slice_lem seen needle rest with same in
    let (gaps, new', out, run, at', touched, replaced) =
      replace_loop_lem state packet (some next) (seen ++ with) rest positions same
        (sym (append_assoc seen with rest))
        (subst (λ p. IsFound needle p rest positions)
          (omega (arith, pos_is, same, length-append front before, length-append seen with))
          found) in
    (
      before ∷ gaps,
      new',
      before ++ (with ++ out),
      rw step run,
      at' ∙ append_assoc seen with out ∙ append_assoc front before (with ++ out),
      IsTouched-some gaps next new' touched,
      (rest, out, whole, refl, first, replaced),
    )

-- The time of the last replacement.
abbrev pub replaced_at : List (List ℕ) → ℕ → ℕ → ℕ
replaced_at [] now last = last
replaced_at (before ∷ gaps) now last = now

module _ (memmem : Memmem) where
  filtered_lem :
      (now : ℕ) (state : FilteringPacketsState) (packet out : List ℕ) (gaps : List (List ℕ))
      (new' : Option (List ℕ))
      → replace_loop state packet (memmem.find_iter state.needle packet) none ≡ ok new'
      → get_or_insert packet new' ≡ out
      → IsTouched gaps none new'
      → filter_packet memmem now state packet
        ≡ ok (record state { last_replace = replaced_at gaps now state.last_replace }, out)
  unfolding filter_packet
  filtered_lem now state packet out [] new' run at touched =
      rw (run, touched) (ap (λ t. ok (state, t)) (sym (ap (get_or_insert packet) touched) ∙ at))
  filtered_lem now state packet out (before ∷ gaps) new' run at (buf, touched) =
      rw (run, touched)
        (ap (λ t. ok (record state { last_replace = now }, t))
          (sym (ap (get_or_insert packet) touched) ∙ at))

  -- If needle and replacement are of one length, not zero, filter_packet returns; the packet that
  -- it gives is the old one with the occurrences of the needle, from the left and without
  -- overlap, replaced and all else kept, so it has the same length; and the time of the last
  -- replacement is now if there was one and else the old one.
  pub filter_packet_lem :
      (now : ℕ) (state : FilteringPacketsState) (packet : List ℕ) (n : ℕ) (ns : List ℕ)
      → state.needle ≡ n ∷ ns
      → length state.replace_with ≡ length state.needle
      → (gaps : List (List ℕ)) × (out : List ℕ) × (filter_packet memmem now state packet
          ≡ ok (record state { last_replace = replaced_at gaps now state.last_replace }, out))
        × IsReplaced state.needle state.replace_with gaps packet out
        × (length out ≡ length packet)
  filter_packet_lem now state packet n ns is same =
      let found : IsFound state.needle 0 packet (memmem.find_iter state.needle packet) =
        subst (λ needle. IsFound needle 0 packet (memmem.find_iter needle packet)) (sym is)
          (memmem.find_iter_lem n ns packet) in
      let (gaps, new', out, run, at, touched, replaced) =
        replace_loop_lem state packet none [] packet (memmem.find_iter state.needle packet) same
          refl found in
      (
        gaps,
        out,
        filtered_lem now state packet out gaps new' run at touched,
        replaced,
        length-IsReplaced state.needle state.replace_with gaps packet out same replaced,
      )
