-- ===== src/Cache/Waiters.antt =====
-- src/cache.cc: those that wait for an entry. None is lost when entries merge, and all of them get the
-- response when the entry is filled.
use cscore_sstelem.Prelude.{
  ℕ, suc, ◌≡◌, refl, ap, ◌∙◌, sym, List, [], ◌∷◌, ◌++◌, append-nil, append_assoc, Bool, true, false,
  ◌||◌, Option, replicate, ◌==◌, if◌then◌else◌, arith,
}
use cscore_sstelem.Packet.{SstRequest}
use cscore_sstelem.Channel.{Channel, Response}
use cscore_sstelem.Channel.Collision.{union_step, set_union}
use cscore_sstelem.Cache.{
  CacheBlock, CacheStats, Mshr, Cache, Replacement, push_returned, return_to,
}
use cscore_sstelem.Cache.Mshrs.{merge_mshr}
use cscore_sstelem.Cache.Lookup.{has_type}
use cscore_sstelem.Cache.Filled.{filled, refused, handle_fill-Outcome}
use cscore_sstelem.Cache.Fill.{answer_waiters, fill_way, handle_fill, prefetcher_cache_fill}

-- A number is in a union if it is in one of the two.
union_step-has :
    (x n : ℕ) (xs ys : List ℕ) (rest : List ℕ → List ℕ)
    → ((zs : List ℕ) → has_type (rest zs) n ≡ (has_type xs n || has_type zs n))
    → has_type (union_step x rest ys) n ≡ (x == n || has_type xs n || has_type ys n)
unfolding union_step
union_step-has x n xs [] rest h = ground (arith, h [])
union_step-has x n xs (y ∷ ys) rest h =
    ground (arith, h (y ∷ ys), h ys, union_step-has x n xs ys rest h)

set_union-has :
    (xs ys : List ℕ) (n : ℕ) → has_type (set_union xs ys) n ≡ (has_type xs n || has_type ys n)
unfolding set_union
set_union-has [] ys n = refl
set_union-has (x ∷ xs) ys n = union_step-has x n xs ys (set_union xs) (λ zs. set_union-has xs zs n)

-- Whoever waits for one of two entries that merge waits for the result, and nobody else does; the same
-- holds of the instructions that depend on it.
pub merge_mshr-waiters :
    (predecessor successor : Mshr) (n : ℕ)
    → let m = merge_mshr predecessor successor in
      (has_type m.to_return n
        ≡ (has_type predecessor.to_return n || has_type successor.to_return n))
      × (has_type m.instr_depend_on_me n
          ≡ (has_type predecessor.instr_depend_on_me n || has_type successor.instr_depend_on_me n))
unfolding merge_mshr
merge_mshr-waiters predecessor successor n = (
  set_union-has predecessor.to_return successor.to_return n,
  set_union-has predecessor.instr_depend_on_me successor.instr_depend_on_me n,
)

-- The responses that wait in the channel `id`.
abbrev pub returned_of : ℕ → List (ℕ × Channel) → List Response
returned_of id [] = []
returned_of id ((i, ch) ∷ ups) = if i == id then ch.returned else returned_of id ups

abbrev pub has_channel : ℕ → List (ℕ × Channel) → Bool
has_channel id [] = false
has_channel id ((i, ch) ∷ ups) = i == id || has_channel id ups

-- How often a number is in a list.
abbrev pub occurrences : ℕ → List ℕ → ℕ
occurrences n [] = 0
occurrences n (x ∷ xs) = if x == n then suc (occurrences n xs) else occurrences n xs

push_returned-returned_of :
    (id to : ℕ) (response : Response) (ups : List (ℕ × Channel))
    → has_channel id ups ≡ true
    → (returned_of id (push_returned to response ups)
        ≡ returned_of id ups ++ (if to == id then response ∷ [] else []))
      × (has_channel id (push_returned to response ups) ≡ true)
unfolding push_returned
push_returned-returned_of id to response [] h = cc
push_returned-returned_of id to response ((i, ch) ∷ ups) h =
    ground (arith, push_returned-returned_of id to response ups, append-nil ch.returned)

one_more :
    (b : Bool) (n : ℕ) (response : Response)
    → (if b then response ∷ [] else []) ++ replicate n response
      ≡ replicate (if b then suc n else n) response
one_more true n response = refl
one_more false n response = refl

-- Each of those that wait gets the response as often as it is on the list.
return_to-returned_of :
    (id : ℕ) (ids : List ℕ) (response : Response) (ups : List (ℕ × Channel))
    → has_channel id ups ≡ true
    → returned_of id (return_to ids response ups)
      ≡ returned_of id ups ++ replicate (occurrences id ids) response
unfolding return_to
return_to-returned_of id [] response ups h = sym (append-nil (returned_of id ups))
return_to-returned_of id (to ∷ ids) response ups h =
    let (one, still) = push_returned-returned_of id to response ups h in
    let later = return_to-returned_of id ids response (push_returned to response ups) still in
    later
    ∙ ap (λ (rs : List Response). rs ++ replicate (occurrences id ids) response) one
    ∙ append_assoc (returned_of id ups) (if to == id then response ∷ [] else []) _
    ∙ ap (λ (rs : List Response). returned_of id ups ++ rs)
        (one_more (to == id) (occurrences id ids) response)

-- The response to those that wait for an entry, with the data that came for it.
abbrev pub response_to : Mshr → Response
response_to m = record {
  address = m.address;
  v_address = m.v_address;
  data_word = m.data_promise.data_word;
  pf_metadata = m.data_promise.pf_metadata;
  instr_depend_on_me = m.instr_depend_on_me;
}

module _ {R : Type 0} ⦃r : Replacement R⦄ where
  fill_way-returned :
      (c : Cache R) (m : Mshr) (way : ℕ) (old : Option CacheBlock) (id : ℕ)
      → has_channel id c.upper_levels ≡ true
      → returned_of id (fill_way c m way old).upper_levels
        ≡ returned_of id c.upper_levels ++ replicate (occurrences id m.to_return) (response_to m)
  unfolding fill_way answer_waiters prefetcher_cache_fill
  fill_way-returned c m way old id h =
      return_to-returned_of id m.to_return (response_to m) c.upper_levels h

module _ {R E : Type 0} ⦃r : Replacement R⦄ (send_remote : E → SstRequest → E × Bool) where
  -- A fill that is made sends the response, with the data that came, to each channel of the upper levels
  -- as often as the entry names it among those that wait, and one that is not made sends nothing.
  pub handle_fill-returned :
      (c : Cache R) (env : E) (m : Mshr) (id : ℕ)
      → has_channel id c.upper_levels ≡ true
      → let (c', env', done) = handle_fill send_remote c env m in
        returned_of id c'.upper_levels
        ≡ returned_of id c.upper_levels
          ++ (if done then replicate (occurrences id m.to_return) (response_to m) else [])
  handle_fill-returned c env m id h = elim (handle_fill-Outcome send_remote c env m) [
    | filled before way old same w o e d ↦
        let uppers : before.upper_levels ≡ c.upper_levels =
          ap (λ (p : List (ℕ × Channel) × List CacheBlock × CacheStats × ℕ × ℕ × ℕ). p.0) same in
        ap (λ (c' : Cache R). returned_of id c'.upper_levels) e
        ∙ fill_way-returned before m way old id (ap (has_channel id) uppers ∙ h)
        ∙ ap
            (λ (ups : List (ℕ × Channel)).
              returned_of id ups ++ replicate (occurrences id m.to_return) (response_to m))
            uppers
        ∙ ap
            (λ (b : Bool).
              returned_of id c.upper_levels
              ++ (if b then replicate (occurrences id m.to_return) (response_to m) else []))
            (sym d)
    | refused same d ↦
        let uppers : (handle_fill send_remote c env m).0.upper_levels ≡ c.upper_levels =
          ap (λ (p : List (ℕ × Channel) × List CacheBlock × CacheStats × ℕ × ℕ × ℕ). p.0) same in
        ap (returned_of id) uppers
        ∙ sym (append-nil (returned_of id c.upper_levels))
        ∙ ap
            (λ (b : Bool).
              returned_of id c.upper_levels
              ++ (if b then replicate (occurrences id m.to_return) (response_to m) else []))
            (sym d)
  ]
