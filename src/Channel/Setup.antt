-- ===== src/Channel/Setup.antt =====
-- The table of channels after its setup and after a reset.
use tcpeen.Base.{
  ℕ, zero, suc, ◌+◌, ◌*◌, ◌%◌, u64_mod, ◌^◌, ◌<◌, ◌≡◌, refl, sym, ap, subst, ◌∙◌, List, [], ◌∷◌,
  ◌++◌, length, length-modify, length-replicate, length-count_up, count_up, count_up_next,
  counted_up, occurs, modify, replicate, success, arith, inl, inr,
}
use tcpeen.Memory.{Memory, IsMemory, IsPlenty}
use tcpeen.ListPtr
use tcpeen.ListPtr.{ListPtr}
use tcpeen.ListPtr.Laws.{
  contents, length-contents, push_back_lem, pop_back_lem, push_back-IsValid, pop_back-IsValid,
  capacity-push_back, capacity-pop_back, setup_empty, clear_lem,
}
use tcpeen.ListPtr.Laws as ListLaws
use tcpeen.Channel.{ChannelList, sizeof_channel, setup, fill, reset, blank, no_list}
use tcpeen.Channel.Table.{IsValid}

-- The table after `i` rounds of the loop.
record IsFilled (i : ℕ) (l : ChannelList) : Type 0 where
  free_list : ListLaws.IsValid l.client_list_free
  free_channels : contents l.client_list_free ≡ count_up 0 i

fill_lem :
    (rounds i : ℕ) {l : ChannelList}
    → IsFilled i l
    → l.client_list_free.capacity ≡ i + rounds
    → (r : ChannelList) × (fill rounds i l ≡ (success, r))
      × IsFilled (i + rounds) r
      × (length r.client_map ≡ length l.client_map)
      × (r.client_list_free.capacity ≡ l.client_list_free.capacity)
      × (r.clients_max ≡ l.clients_max)
unfolding fill
fill_lem zero i {l} w h = (l, refl, subst (λ n. IsFilled n l) (omega arith) w, refl, refl, refl)
fill_lem (suc rounds) i {l} w h = elim (push_back_lem l.client_list_free w.free_list i) [
  | inl (s, _, step) ↦
      let l' : ChannelList = record l {
        client_map = modify l.client_map i (λ c. record c { id = i });
        client_list_free = (ListPtr.push_back l.client_list_free i).1;
      } in
      let round : fill (suc rounds) i l ≡ fill rounds (i + 1) l' = rw s refl in
      let (r, done, w', mapped, cap, max) =
        fill_lem rounds (i + 1) {l = l'}
          (record {
            free_list = push_back-IsValid l.client_list_free w.free_list i;
            free_channels = step ∙ ap (λ xs. xs ++ i ∷ []) w.free_channels ∙ sym (count_up_next i);
          })
          (omega (arith, h, capacity-push_back l.client_list_free i)) in
      (
        r,
        round ∙ done,
        subst (λ n. IsFilled n r) (omega arith) w',
        mapped ∙ length-modify l.client_map i (λ c. record c { id = i }),
        cap ∙ capacity-push_back l.client_list_free i,
        max,
      )
  | inr (_, full, _) ↦ absurd (
      omega (
        arith,
        full,
        h,
        ap length w.free_channels,
        length-count_up 0 i,
        length-contents l.client_list_free w.free_list,
      ))
]

filled-IsValid :
    (n : ℕ) {r : ChannelList}
    → IsFilled n r
    → r.client_list_free.capacity ≡ n
    → length r.client_map ≡ n
    → IsValid [] (record r { clients_max = n })
filled-IsValid n w cap mapped = record {
  free_list = w.free_list;
  free_capacity = cap;
  mapped = mapped;
  owned = record {
    once = λ j. omega (arith, (counted_up n).once j, ap (occurs j) w.free_channels);
    sized = omega (arith, (counted_up n).sized, ap length w.free_channels);
  };
}

-- A reset of a valid table succeeds and makes every channel free, the last one on top.
pub reset_frees_all :
    (used : List ℕ) (l : ChannelList)
    → IsValid used l
    → let (s, r) = reset l in
      (s ≡ success)
      × (contents r.client_list_free ≡ count_up 0 l.clients_max)
      × (r.clients_max ≡ l.clients_max)
      × IsValid [] r
unfolding reset
reset_frees_all used l v =
    let (free_valid, emptied, cap) = clear_lem l.client_list_free v.free_list in
    let (r, done, w, mapped, cap', max) =
      fill_lem l.clients_max 0
        {l = record l {
          client_map = replicate l.clients_max blank;
          client_list_free = ListPtr.clear l.client_list_free;
          client_list_open = ListPtr.clear l.client_list_open;
        }}
        (record { free_list = free_valid; free_channels = emptied })
        (omega (arith, cap, v.free_capacity)) in
    rw done (
      refl,
      w.free_channels ∙ ap (count_up 0) (omega arith),
      max,
      subst (λ m. IsValid [] (record r { clients_max = m })) (sym max)
          (filled-IsValid l.clients_max (subst (λ n. IsFilled n r) (omega arith) w)
            (omega (arith, cap', cap, v.free_capacity))
            (mapped ∙ length-replicate l.clients_max blank)),
    )

-- What the loop of the setup starts from.
abbrev raw : Memory → ℕ → ChannelList
raw mem n = record {
  client_map = replicate n blank;
  clients_max = 0;
  client_list_free = (ListPtr.setup mem.words n).1;
  client_list_open = no_list;
}

setup_steps :
    (mem : Memory) (n : ℕ) {r : ChannelList}
    → setup mem n ≡ (success, r)
    → ((ListPtr.setup mem.words n).0 ≡ success)
      × ((fill n 0 (raw mem n)).0 ≡ success)
      × (r ≡ record ((fill n 0 (raw mem n)).1) { clients_max = n })
unfolding setup
setup_steps mem n e = ground arith

-- A successful setup for fewer than 2 ^ 61 channels gives a valid table of that size where every
-- channel is free, the last one on top.
pub setup_channels_free :
    (mem : Memory) (n : ℕ) {r : ChannelList}
    → IsMemory mem
    → n < 2 ^ 61
    → setup mem n ≡ (success, r)
    → IsValid [] r × (r.clients_max ≡ n) × (contents r.client_list_free ≡ count_up 0 n)
setup_channels_free mem n {r} laws small e =
    let (s, t, same) = setup_steps mem n e in
    let (free_valid, emptied, cap) = setup_empty mem.words n laws.words_lem small s in
    let (l, done, w, mapped, cap', max) =
      fill_lem n 0 {l = raw mem n} (record { free_list = free_valid; free_channels = emptied })
        (omega (arith, cap)) in
    let whole : r ≡ record l { clients_max = n } =
      same ∙ ap (λ p. record (p.1) { clients_max = n }) done in
    subst (λ r. IsValid [] r × (r.clients_max ≡ n) × (contents r.client_list_free ≡ count_up 0 n))
      (sym whole)
      (
        filled-IsValid n (subst (λ m. IsFilled m l) (omega arith) w) (cap' ∙ cap)
            (mapped ∙ length-replicate n blank),
        refl,
        w.free_channels ∙ ap (count_up 0) (omega arith),
      )

-- Where all the memory is there, the setup succeeds.
pub setup_succeeds :
    (mem : Memory) (n : ℕ) → IsMemory mem → IsPlenty mem → n < 2 ^ 61 → (setup mem n).0 ≡ success
unfolding setup
setup_succeeds mem n laws plenty small =
    let s = ListLaws.setup_succeeds mem.words n plenty.words_there in
    let (free_valid, emptied, cap) = setup_empty mem.words n laws.words_lem small s in
    let (l, done, _, _, _, _) =
      fill_lem n 0 {l = raw mem n} (record { free_list = free_valid; free_channels = emptied })
        (omega (arith, cap)) in
    rw (setup, s, plenty.structs_there (n * sizeof_channel % u64_mod), done) refl
