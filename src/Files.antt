-- ===== src/Files.antt =====
-- omnetpp/pfsfile: the files that a client or a metadata server knows, with their layouts. The
-- directory is a list in place of a map; a change through a pointer to a file is a change of the
-- entry.
use pfssim.Base.{ℕ, Bool, true, false, Option, none, some, List, [], ◌∷◌, ◌++◌, ◌==◌, find_by}
use pfssim.Layout as L
use pfssim.Layout.{Layout, QPacket, set_q_packet}

pub record PfsFile : Type 0 where
  pub id : ℕ
  pub layout : Option Layout

-- `PVFS2File(id)`
abbrev pub new_file : ℕ → PfsFile
new_file id = record { id = id; layout = none }

abbrev pub has_file_id : ℕ → PfsFile → Bool
has_file_id id f = f.id == id

unfoldable pub find_pfs_file : ℕ → List PfsFile → Option PfsFile
find_pfs_file id fs = find_by (has_file_id id) fs

unless_found : Option PfsFile → PfsFile → List PfsFile → List PfsFile
unless_found none f fs = fs ++ f ∷ []
unless_found (some g) f fs = fs

-- `addPFSFile`, which leaves a file that is there.
unfoldable pub add_pfs_file : PfsFile → List PfsFile → List PfsFile
unfolding unless_found
add_pfs_file f fs = unless_found (find_pfs_file f.id fs) f fs

pub information_is_set : PfsFile → Bool
information_is_set f = elim f.layout [ none ↦ false | some l ↦ true ]

-- The layout that a file has, or that it gets.
layout_or_new : Option Layout → Layout
layout_or_new none = L.init none (λ i. 0) (λ i. 0)
layout_or_new (some l) = l

unfoldable pub set_from_metadata_packet : QPacket → PfsFile → PfsFile
unfolding layout_or_new
set_from_metadata_packet p f = record f { layout = some (L.set_layout p (layout_or_new f.layout)) }

unfoldable pub create_metadata_packet : ℕ → ℕ → ℕ → PfsFile → QPacket
create_metadata_packet pktid srcid dstid f = record {
  id = pktid;
  file_id = f.id;
  client_id = srcid;
  metadata_server_id = dstid;
  ds_num = 0;
  ds_list = λ i. 0;
  ds_stripe_sizes = λ i. 0;
}

-- `none` stands for the use of a layout that is NULL.
reply_from : Option Layout → QPacket → Option QPacket
reply_from none p = none
reply_from (some l) p = some (set_q_packet l p)

unfoldable pub reply_metadata_packet : QPacket → PfsFile → Option QPacket
unfolding reply_from
reply_metadata_packet p f = reply_from f.layout p

handle_with : Option PfsFile → QPacket → Option (List QPacket)
handle_with none p = none
handle_with (some f) p = elim (reply_metadata_packet p f) [ none ↦ none | some q ↦ some (q ∷ []) ]

-- omnetpp/mserver/strategy/PVFS2MetadataServerStrategy.cc: the answer to a query; `none` stands for
-- the use of a file that is NULL.
unfoldable pub handle_metadata_packet : QPacket → List PfsFile → Option (List QPacket)
unfolding handle_with
handle_metadata_packet p fs = handle_with (find_pfs_file p.file_id fs) p
