-- ===== src/Layout.antt =====
-- omnetpp/layout/Layout.cc: how a file is striped over the data servers.
pub mod Laws
mod Tests
use pfssim.Base.{
  ℕ, zero, suc, ◌+◌, Option, none, some, Bool, true, false, ltb, leb, ◌==◌, if◌then◌else◌, update,
}

abbrev pub max_ds : ℕ
max_ds = 32

-- An ID or a window size of -1 is `none`. The arrays have `max_ds` cells.
pub record Layout : Type 0 where
  pub file_id : Option ℕ
  pub window_size : Option ℕ
  pub server_num : ℕ
  pub server_list : ℕ → ℕ
  pub server_stripe_sizes : ℕ → ℕ

-- `qPacket`, a request for a layout and its answer.
pub record QPacket : Type 0 where
  pub id : ℕ
  pub file_id : ℕ
  pub client_id : ℕ
  pub metadata_server_id : ℕ
  pub ds_num : ℕ
  pub ds_list : ℕ → ℕ
  pub ds_stripe_sizes : ℕ → ℕ

-- `for (i = 0; i < n; i ++) to[i] = from[i]`
pub copy_upto : ℕ → (ℕ → ℕ) → (ℕ → ℕ) → ℕ → ℕ
copy_upto zero from to = to
copy_upto (suc n) from to = update (copy_upto n from to) n (from n)

-- `for (i = 0; i < n; i ++) sum += a[i]`
unfoldable pub sum_upto : ℕ → (ℕ → ℕ) → ℕ
sum_upto zero a = 0
sum_upto (suc n) a = sum_upto n a + a n

-- The members that the constructor sets; the arrays are given.
pub init : Option ℕ → (ℕ → ℕ) → (ℕ → ℕ) → Layout
init fid servers sizes = record {
  file_id = fid;
  window_size = none;
  server_num = 0;
  server_list = servers;
  server_stripe_sizes = sizes;
}

clamp_num : ℕ → ℕ
clamp_num num = if ltb max_ds num then max_ds else num

pub set_file_id : ℕ → Layout → Layout
set_file_id fid l = record l { file_id = some fid }

pub set_window_size : ℕ → Layout → Layout
set_window_size size l = record l { window_size = some size }

pub set_server_num : ℕ → Layout → Layout
unfolding clamp_num
set_server_num num l = record l { server_num = clamp_num num }

pub set_server_list : ℕ → (ℕ → ℕ) → Layout → Layout
unfolding clamp_num copy_upto
set_server_list num servers l = record l {
  server_num = clamp_num num;
  server_list = copy_upto (clamp_num num) servers l.server_list;
}

pub set_server_stripe_sizes : ℕ → (ℕ → ℕ) → Layout → Layout
unfolding clamp_num copy_upto
set_server_stripe_sizes num sizes l = record l {
  server_num = clamp_num num;
  server_stripe_sizes = copy_upto (clamp_num num) sizes l.server_stripe_sizes;
  window_size = some (sum_upto (clamp_num num) sizes);
}

pub set_layout : QPacket → Layout → Layout
unfolding copy_upto
set_layout qpkt l = record {
  file_id = some qpkt.file_id;
  server_num = qpkt.ds_num;
  server_list = copy_upto qpkt.ds_num qpkt.ds_list l.server_list;
  server_stripe_sizes = copy_upto qpkt.ds_num qpkt.ds_stripe_sizes l.server_stripe_sizes;
  window_size = some (sum_upto qpkt.ds_num qpkt.ds_stripe_sizes);
}

unfoldable pub set_q_packet : Layout → QPacket → QPacket
unfolding copy_upto
set_q_packet l qpkt = record qpkt {
  ds_num = l.server_num;
  ds_list = copy_upto l.server_num l.server_list qpkt.ds_list;
  ds_stripe_sizes = copy_upto l.server_num l.server_stripe_sizes qpkt.ds_stripe_sizes;
}

pub set_server_id : ℕ → ℕ → Layout → Layout
set_server_id index id l = record l { server_list = update l.server_list index id }

pub set_server_stripe_size : ℕ → ℕ → Layout → Layout
set_server_stripe_size index size l = record l {
  server_stripe_sizes = update l.server_stripe_sizes index size;
}

-- `none` is the exception.
unfoldable pub get_server_id : ℕ → Layout → Option ℕ
get_server_id index l = if leb l.server_num index then none else some (l.server_list index)

unfoldable pub get_server_stripe_size : ℕ → Layout → Option ℕ
get_server_stripe_size index l =
    if leb l.server_num index then none else some (l.server_stripe_sizes index)

-- The rounds i, …, i + n - 1 of the loop; `none` is -1.
pub find_from : (ℕ → ℕ) → ℕ → ℕ → ℕ → Option ℕ
find_from servers id i zero = none
find_from servers id i (suc n) =
    let rest = find_from servers id (i + 1) n in if servers i == id then some i else rest

unfoldable pub find_server_index : ℕ → Layout → Option ℕ
unfolding find_from
find_server_index id l = find_from l.server_list id 0 l.server_num

unfoldable pub calculate_window_size : Layout → Layout
calculate_window_size l = record l {
  window_size = some (sum_upto l.server_num l.server_stripe_sizes);
}

unfoldable pub size_of : Option ℕ → Layout → ℕ × Layout
size_of (some size) l = (size, l)
size_of none l = let w = sum_upto l.server_num l.server_stripe_sizes in (w, calculate_window_size l)

unfoldable pub get_window_size : Layout → ℕ × Layout
unfolding size_of calculate_window_size
get_window_size l = size_of l.window_size l
