-- ===== src/Mserver/Exchange.antt =====
-- The exchange of a layout between the metadata server (omnetpp/mserver/MetadataServer.cc) and a client that
-- stores it in its file (omnetpp/pfsfile).
use pfssim.Base.{
  ℕ, ◌<◌, ◌≡◌, refl, inl, inr, true, false, Option, none, some, List, [], ◌∷◌, Bool-cases, Arith,
  arith,
}
use pfssim.Packet.{GPacket, Kind, pfs_w_resp, pfs_r_data, pfs_r_data_last}
use pfssim.Layout.{Layout, QPacket, set_q_packet, sum_upto}
use pfssim.Layout.Laws.{set_layout-set_q_packet}
use pfssim.Files.{
  PfsFile, find_pfs_file, set_from_metadata_packet, handle_metadata_packet, reply_metadata_packet,
}
use pfssim.Mserver.{
  Message, layout_req, layout_resp, packet, is_request, is_response, MetadataServer, Effect, to_eth,
  schedule, handle_message,
}

-- The layout of a file: the servers with their stripe sizes, and the window that these make up.
abbrev pub HasLayout : ℕ → Layout → Option Layout → Type 0
HasLayout fid l none = ⊥
HasLayout fid l (some l') =
    (l'.file_id ≡ some fid)
    × (l'.server_num ≡ l.server_num)
    × ((i : ℕ) → i < l.server_num → l'.server_list i ≡ l.server_list i)
    × ((i : ℕ) → i < l.server_num → l'.server_stripe_sizes i ≡ l.server_stripe_sizes i)
    × (l'.window_size ≡ some (sum_upto l.server_num l.server_stripe_sizes))

-- An answer to the query gives the layout to the file `g` of a client.
abbrev pub Gives : QPacket → Layout → PfsFile → Message → Type 0
Gives q l g (layout_resp r) =
    (r.id ≡ q.id)
    × (r.client_id ≡ q.client_id)
    × HasLayout q.file_id l (set_from_metadata_packet r g).layout
Gives q l g (layout_req r) = ⊥
Gives q l g (packet p) = ⊥

set_q_packet-Gives :
    (q : QPacket) (l : Layout) (g : PfsFile) → Gives q l g (layout_resp (set_q_packet l q))
unfolding set_from_metadata_packet set_q_packet
set_q_packet-Gives q l g = (refl, refl, set_layout-set_q_packet l _ q)

no_both : (k : Kind) → is_request k ≡ true → is_response k ≡ true → ⊥
no_both pfs_w_resp h g = ground (arith, h)
no_both pfs_r_data h g = ground (arith, h)
no_both pfs_r_data_last h g = ground (arith, h)
no_both _ h g = ground (arith, g)

module _ (F : Arith) where
  -- One answer goes out, at once or when the processing time is over.
  abbrev pub Teaches :
      MetadataServer F → F.Double → QPacket → Layout → PfsFile → Option (List (Effect F)) → Type 0
  Teaches s now q l g (some (to_eth m ∷ [])) =
      (F.eq s.metadata_packet_process_time F.zero ≡ true) × Gives q l g m
  Teaches s now q l g (some (schedule t m ∷ [])) =
      (F.eq s.metadata_packet_process_time F.zero ≡ false)
      × (t ≡ F.add now s.metadata_packet_process_time)
      × Gives q l g m
  Teaches s now q l g _ = ⊥

  -- A query of a file that the server knows, with a layout, is answered by one message, once its processing time
  -- is over: the answer has the ID and the client of the query, and whatever file `g` the client
  -- sets from it has the layout of the server's file then, its servers, their stripe sizes and the sum of these.
  pub handle_message-Teaches :
      (s : MetadataServer F) (now : F.Double) (q : QPacket) (f g : PfsFile) (l : Layout)
      → find_pfs_file q.file_id s.pfs_files ≡ some f
      → f.layout ≡ some l
      → Teaches s now q l g (handle_message F s now (layout_req q))
  unfolding handle_message handle_metadata_packet reply_metadata_packet
  handle_message-Teaches s now q f g l found has =
      elim (Bool-cases (F.eq s.metadata_packet_process_time F.zero)) [
        | inl e ↦ rw (found, has, e) (e, set_q_packet-Gives q l g)
        | inr e ↦ rw (found, has, e) (e, refl, set_q_packet-Gives q l g)
      ]

  -- The response of a data server is an error.
  response_fails :
      (s : MetadataServer F) (now : F.Double) (p : GPacket)
      → is_response p.kind ≡ true
      → handle_message F s now (packet p) ≡ none
  unfolding handle_message
  response_fails s now p h = elim (Bool-cases (is_request p.kind)) [
    | inl e ↦ absurd (no_both p.kind e h)
    | inr e ↦ rw (e, h) refl
  ]
