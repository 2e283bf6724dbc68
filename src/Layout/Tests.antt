-- ===== src/Layout/Tests.antt =====
-- A layout of two servers, sent to a client that holds another one.
use pfssim.Base.{◌+◌, none, some, update}
use pfssim.Layout.{Layout, QPacket, init}

abbrev two_servers : Layout
two_servers = record {
  file_id = some 5;
  window_size = none;
  server_num = 2;
  server_list = λ i. i + 100;
  server_stripe_sizes = update (λ i. 4) 1 6;
}

abbrev client_layout : Layout
client_layout = init none (λ i. 7) (λ i. 0)

abbrev query : QPacket
query = record {
  id = 3;
  file_id = 5;
  client_id = 1;
  metadata_server_id = 0;
  ds_num = 0;
  ds_list = λ i. 0;
  ds_stripe_sizes = λ i. 0;
}
