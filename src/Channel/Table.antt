-- ===== src/Channel/Table.antt =====
-- The table of channels: each one is free or in use.
use tcpeen.Base.{
  ℕ, ◌≤◌, ◌<◌, ◌≡◌, refl, ap, ◌∙◌, none, some, List, [], ◌∷◌, ◌++◌, length, length-append,
  second-lt, occurs, occurs-append, Partition, success, error, arith, ◌⊎◌, inl, inr,
}
use tcpeen.ListPtr
use tcpeen.ListPtr.{ListPtr}
use tcpeen.ListPtr.Laws.{
  contents, length-contents, push_back_lem, pop_back_lem, push_back-IsValid, pop_back-IsValid,
  capacity-push_back, capacity-pop_back, setup_empty, clear_lem,
}
use tcpeen.ListPtr.Laws as ListLaws
use tcpeen.Channel.{ChannelList, open_channel, close_channel, get}

-- `used` are the channels that are open or closing.
pub record IsValid (used : List ℕ) (l : ChannelList) : Type 0 where
  pub free_list : ListLaws.IsValid l.client_list_free
  pub free_capacity : l.client_list_free.capacity ≡ l.clients_max
  pub mapped : length l.client_map ≡ l.clients_max
  pub owned : Partition l.clients_max (contents l.client_list_free ∷ used ∷ [])

-- An opened channel is in range, was not in use, and is in use afterwards; where all channels
-- are in use the call fails and changes nothing.
pub open_channel_lem :
    (used : List ℕ) (l : ChannelList)
    → IsValid used l
    → let (s, out, r) = open_channel l in
      ((length used ≡ l.clients_max) × (s ≡ error) × (out ≡ none) × (r ≡ l))
      ⊎ ((i : ℕ) × (s ≡ success)
          × (out ≡ some i)
          × (i < l.clients_max)
          × (occurs i used ≡ 0)
          × (r.client_map ≡ l.client_map)
          × IsValid (i ∷ used) r)
unfolding open_channel
open_channel_lem used l v = elim (pop_back_lem l.client_list_free v.free_list) [
  | inl (s, out, none_free, r) ↦ rw s (
      inl (
        omega (arith, v.owned.sized, ap length none_free),
        refl,
        out,
        ap (λ f. record l { client_list_free = f }) r,
      ))
  | inr (i, s, out, step) ↦
      let owned : Partition l.clients_max
          (contents (ListPtr.pop_back l.client_list_free).2 ∷ (i ∷ used) ∷ []) =
        record {
          once = λ j. omega (
            arith,
            v.owned.once j,
            ap (occurs j) step,
            occurs-append j (contents (ListPtr.pop_back l.client_list_free).2) (i ∷ []),
          );
          sized = omega (
            arith,
            v.owned.sized,
            ap length step,
            length-append (contents (ListPtr.pop_back l.client_list_free).2) (i ∷ []),
          );
        } in
      let (small, unused) =
        second-lt l.clients_max i (contents (ListPtr.pop_back l.client_list_free).2) used owned in
      rw s (
        inr (
          i,
          refl,
          out,
          small,
          unused,
          refl,
          record {
            free_list = pop_back-IsValid l.client_list_free v.free_list;
            free_capacity = capacity-pop_back l.client_list_free ∙ v.free_capacity;
            mapped = v.mapped;
            owned = owned;
          },
        ))
]

-- A channel that is in use can always be closed: it is put on top of the free ones, and is no
-- longer in use.
pub close_channel_lem :
    (i : ℕ) (used : List ℕ) (l : ChannelList)
    → IsValid (i ∷ used) l
    → let (s, r) = close_channel l i in
      (s ≡ success)
      × (contents r.client_list_free ≡ contents l.client_list_free ++ i ∷ [])
      × (r.client_map ≡ l.client_map)
      × IsValid used r
unfolding close_channel
close_channel_lem i used l v = elim (push_back_lem l.client_list_free v.free_list i) [
  | inl (s, _, step) ↦ rw s (
    refl,
    step,
    refl,
    record {
      free_list = push_back-IsValid l.client_list_free v.free_list i;
      free_capacity = capacity-push_back l.client_list_free i ∙ v.free_capacity;
      mapped = v.mapped;
      owned = record {
        once = λ j. omega (
          arith,
          v.owned.once j,
          ap (occurs j) step,
          occurs-append j (contents l.client_list_free) (i ∷ []),
        );
        sized = omega (
          arith,
          v.owned.sized,
          ap length step,
          length-append (contents l.client_list_free) (i ∷ []),
        );
      };
    },
  )
  | inr (_, full, _) ↦ absurd (
      omega (
        arith,
        full,
        v.free_capacity,
        v.owned.sized,
        length-contents l.client_list_free v.free_list,
      ))
]

-- An identifier gives a channel of the table exactly where it is in range.
pub get_lem :
    (used : List ℕ) (l : ChannelList) (client_id : ℕ)
    → IsValid used l
    → ((client_id < length l.client_map) × (get l client_id ≡ (success, some client_id)))
      ⊎ ((length l.client_map ≤ client_id) × (get l client_id ≡ (error, none)))
unfolding get
get_lem used l client_id v = ground (arith, v.mapped)
