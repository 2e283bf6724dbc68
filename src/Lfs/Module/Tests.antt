-- ===== src/Lfs/Module/Tests.antt =====
-- A queue with one page request that waits.
use pfssim.Base.{pos, true, false, [], ◌∷◌, some}
use pfssim.Lfs.Ext3.{Ext3}

abbrev queue : Ext3
queue = record {
  degree = pos 1;
  page_size = 8;
  blk_size = 4;
  page_req_q =
      record {
        req = record {
          id = 1;
          sub_id = 0;
          file_id = 3;
          page_start = 0;
          page_end = 1;
          read = true;
          o_direct = false;
        };
        pending = false;
        start = 0;
        end = 2;
        extindex = 0;
        extoff = 0;
      }
      ∷ [];
  outstanding = 0;
  new_ext_size = 16;
  new_ext_gap = 4;
  extlist = λ f. some (λ i. record { logistart = 0; phystart = 4; length = 16; accessed = true });
  extentry_num = λ f. 1;
}
