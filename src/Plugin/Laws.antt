-- ===== src/Plugin/Laws.antt =====
-- What the plugin keeps of the service, whatever it is given.
use tcpeen.Base.{
  ℕ, ◌<◌, length, ◌≡◌, refl, sym, subst, inl, inr, Bool-cases, Option, none, some, List, [], ◌∷◌,
  failed, Status,
}
use tcpeen.Bytes.{ByteOps, IsByteOps}
use tcpeen.Channel.Table as Table
use tcpeen.Channel.Table.{get_lem}
use tcpeen.Service.{Service}
use tcpeen.Service.Send as Send
use tcpeen.Service.Send.Inv.{IsValid}
use tcpeen.Service.Send.Laws.{send_keeps}
use tcpeen.Plugin.{Plugin, guarded, send}

guarded_service : (p : Plugin) (r : Status × Service) → (guarded p r).1.service ≡ r.1
guarded_service p r = elim (Bool-cases (failed r.0)) [
  | inl bad ↦ rw bad refl
  | inr good ↦ rw good refl
]

module _ (ops : ByteOps) (laws : IsByteOps ops) {k m : ℕ} {writing : List ℕ} where
  sent-IsValid :
      (s : Service) (c : ℕ) (bytes : List ℕ)
      → IsValid k m writing s
      → c < length s.channel_list.client_map
      → IsValid k m writing (Send.send ops s c bytes).1
  sent-IsValid s c bytes v known = elim (send_keeps v ops laws c bytes known) [
    | inl (_, _, same) ↦ rw same v
    | inr (inl (_, _, _, _, w)) ↦ w
    | inr (inr (_, sent)) ↦ sent.13
  ]

  -- Whatever identifier and bytes the plugin is given to send, also none or unknown ones, and also
  -- before a setup, a valid service stays valid.
  pub send-IsValid :
      {used : List ℕ} (p : Plugin) (client_id : ℕ) (bytes : Option (List ℕ))
      → IsValid k m writing p.service
      → Table.IsValid used p.service.channel_list
      → let (r, p') = send ops p client_id bytes in IsValid k m writing p'.service
  unfolding send
  send-IsValid p client_id none v t = v
  send-IsValid p client_id (some []) v t = v
  send-IsValid {used} p client_id (some (b ∷ bs)) v t = elim (Bool-cases p.has_priv) [
    | inr missing ↦ rw missing v
    | inl there ↦ elim (get_lem used p.service.channel_list client_id t) [
      | inr (_, e) ↦ rw (there, e) v
      | inl (known, e) ↦
          rw (there, e)
            (subst (IsValid k m writing)
              (sym (guarded_service p (Send.send ops p.service client_id (b ∷ bs))))
              (sent-IsValid p.service client_id (b ∷ bs) v known))
    ]
  ]
