-- ===== src/Decompress/Types.antt =====
-- The states of the parser of src/decompress.c up to the coding tables, and the fields of DState that
-- they use, with the locals of BZ2_decompress and the area in which it saves them on every return.
use libqbz.Base.{ℕ, List, Bool, true, false, Option, none}
use libqbz.Base.Ints.{ℤ, pos}
use libqbz.Compress.Types.{Code}

-- BZ_X_IDLE, BZ_X_MAGIC_1 to BZ_X_CODING_3, and BZ_X_ENDHDR_2 to BZ_X_CCRC_4
pub data Label : Type 0 where
  idle : Label
  magic_1 magic_2 magic_3 magic_4 : Label
  blkhdr_1 blkhdr_2 blkhdr_3 blkhdr_4 blkhdr_5 blkhdr_6 : Label
  bcrc_1 bcrc_2 bcrc_3 bcrc_4 randbit origptr_1 origptr_2 origptr_3 : Label
  mapping_1 mapping_2 selector_1 selector_2 selector_3 coding_1 coding_2 coding_3 : Label
  endhdr_2 endhdr_3 endhdr_4 endhdr_5 endhdr_6 ccrc_1 ccrc_2 ccrc_3 ccrc_4 : Label

-- `tt`, `ll16` and `ll4` hold the sizes of what was allocated, in bytes.
pub record DState : Type 0 where
  pub state : Label
  pub small_decompress : Bool
  pub block_size100k : ℕ
  pub curr_block_no : ℕ
  pub tt : Option ℕ
  pub ll16 : Option ℕ
  pub ll4 : Option ℕ
  pub stored_block_crc : ℕ
  pub stored_combined_crc : ℕ
  pub block_randomised : ℕ
  pub orig_ptr : ℕ
  pub in_use16 : ℕ → Bool
  pub in_use : ℕ → Bool
  pub seq_to_unseq : List ℕ
  pub selector_mtf : ℕ → ℕ
  pub selector : List ℕ
  pub len : ℕ → ℕ → ℕ

-- The 24 locals that outlive a return. The last three are pointers into a table, by the number of the
-- table, and NULL is `none`.
pub record Locals : Type 0 where
  pub i : ℕ
  pub j : ℕ
  pub t : ℕ
  pub alpha_size : ℕ
  pub n_groups : ℕ
  pub n_selectors : ℕ
  pub eob : ℕ
  pub group_no : ℤ
  pub group_pos : ℕ
  pub next_sym : ℕ
  pub nblock_max : ℕ
  pub nblock : ℕ
  pub es : ℤ
  pub n : ℕ
  pub curr : ℕ
  pub zt : ℕ
  pub zn : ℕ
  pub zvec : ℕ
  pub zj : ℕ
  pub g_sel : ℕ
  pub g_minlen : ℕ
  pub g_limit : Option ℕ
  pub g_base : Option ℕ
  pub g_perm : Option ℕ

-- The fields of DState in which they are kept between two calls.
pub record Saved : Type 0 where
  pub save_i : ℕ
  pub save_j : ℕ
  pub save_t : ℕ
  pub save_alpha_size : ℕ
  pub save_n_groups : ℕ
  pub save_n_selectors : ℕ
  pub save_eob : ℕ
  pub save_group_no : ℤ
  pub save_group_pos : ℕ
  pub save_next_sym : ℕ
  pub save_nblock_max : ℕ
  pub save_nblock : ℕ
  pub save_es : ℤ
  pub save_n : ℕ
  pub save_curr : ℕ
  pub save_zt : ℕ
  pub save_zn : ℕ
  pub save_zvec : ℕ
  pub save_zj : ℕ
  pub save_g_sel : ℕ
  pub save_g_minlen : ℕ
  pub save_g_limit : Option ℕ
  pub save_g_base : Option ℕ
  pub save_g_perm : Option ℕ

-- what the first call of a stream puts there
unfoldable pub zero_saved : Saved
zero_saved = record {
  save_i = 0;
  save_j = 0;
  save_t = 0;
  save_alpha_size = 0;
  save_n_groups = 0;
  save_n_selectors = 0;
  save_eob = 0;
  save_group_no = pos 0;
  save_group_pos = 0;
  save_next_sym = 0;
  save_nblock_max = 0;
  save_nblock = 0;
  save_es = pos 0;
  save_n = 0;
  save_curr = 0;
  save_zt = 0;
  save_zn = 0;
  save_zvec = 0;
  save_zj = 0;
  save_g_sel = 0;
  save_g_minlen = 0;
  save_g_limit = none;
  save_g_base = none;
  save_g_perm = none;
}

-- the locals restored from the save area
unfoldable pub restore : Saved → Locals
restore w = record {
  i = w.save_i;
  j = w.save_j;
  t = w.save_t;
  alpha_size = w.save_alpha_size;
  n_groups = w.save_n_groups;
  n_selectors = w.save_n_selectors;
  eob = w.save_eob;
  group_no = w.save_group_no;
  group_pos = w.save_group_pos;
  next_sym = w.save_next_sym;
  nblock_max = w.save_nblock_max;
  nblock = w.save_nblock;
  es = w.save_es;
  n = w.save_n;
  curr = w.save_curr;
  zt = w.save_zt;
  zn = w.save_zn;
  zvec = w.save_zvec;
  zj = w.save_zj;
  g_sel = w.save_g_sel;
  g_minlen = w.save_g_minlen;
  g_limit = w.save_g_limit;
  g_base = w.save_g_base;
  g_perm = w.save_g_perm;
}

-- the locals saved, at `save_state_and_return`
unfoldable pub save_state : Locals → Saved
save_state v = record {
  save_i = v.i;
  save_j = v.j;
  save_t = v.t;
  save_alpha_size = v.alpha_size;
  save_n_groups = v.n_groups;
  save_n_selectors = v.n_selectors;
  save_eob = v.eob;
  save_group_no = v.group_no;
  save_group_pos = v.group_pos;
  save_next_sym = v.next_sym;
  save_nblock_max = v.nblock_max;
  save_nblock = v.nblock;
  save_es = v.es;
  save_n = v.n;
  save_curr = v.curr;
  save_zt = v.zt;
  save_zn = v.zn;
  save_zvec = v.zvec;
  save_zj = v.zj;
  save_g_sel = v.g_sel;
  save_g_minlen = v.g_minlen;
  save_g_limit = v.g_limit;
  save_g_base = v.g_base;
  save_g_perm = v.g_perm;
}

abbrev pub is_magic_1 : Label → Bool
is_magic_1 magic_1 = true
is_magic_1 _ = false

abbrev pub is_idle : Label → Bool
is_idle idle = true
is_idle _ = false

-- What the code between two calls of GET_BITS comes to: the next one, RETURN, or the end of the part
-- modelled, where the decode tables are built.
pub data Step : Type 0 where
  goto : Label → DState → Locals → Step
  return : Code → DState → Locals → Step
  tables : DState → Locals → Step
