-- ===== src/Hakase/Setup/Tests.antt =====
-- `setup` on a binary that is no more than its header, with two symbols to export.
use toshokan.Base.{
  ℕ, ◌^◌, ◌<◌, ◌↔◌, arith, ◌≡◌, refl, true, [], ◌∷◌, some, ◌||◌, ◌==◌, if◌then◌else◌,
}
use toshokan.Base.Int.{ℤ, pos}
use toshokan.Hakase.Elf.Headers.{
  Image, is_elf, is_elf64, is_osabi_sysv, is_osabi_gnu, is_executable, get_phdr_offset,
  get_shdr_offset, create_hdr,
}
use toshokan.Hakase.Elf.Deploy.Listed.{HasTables}
use toshokan.Hakase.Elf.Deploy.Accepts.{IsAccepted}
use toshokan.Hakase.Elf.Deploy.{deploy, is_loadable, scan, phdr_fill, shdr_fill}
use toshokan.Hakase.PageTables.Identity.{IsPlaced}
use toshokan.Hakase.Startup.{
  kmod_version_string, memmap_option, check_file, strstr, starts_with, c_string,
}
use toshokan.Hakase.Setup.{Process, Setting, clear, setup}
use toshokan.Hakase.Setup.Leaves.{IsSetUp}
use toshokan.Hakase.Setup.Ready.{is_supplied, setup-ready}

abbrev header : Image
header o =
    if o == 0
    then 0x7F
    else if o == 1
    then b'E'
    else if o == 2
    then b'L'
    else if o == 3
    then b'F'
    else if o == 4 || o == 16
    then 2
    else if o == 25
    then 0x80
    else if o == 32 || o == 40
    then 64
    else 0

abbrev setting : Setting
setting = record {
  version = some kmod_version_string;
  cmdline = some memmap_option;
  friend_mem_opens = true;
  friend_mem_maps = true;
  bootmem_opens = true;
  bootmem_maps = true;
  friend_bin = header;
  friend16_bin = λ a. a;
  friend16_bin_size = 100;
  places = record {
    pml4t = 0x7_1000;
    pdpt = 0x1_0000_1000;
    pd1 = 0x1_0000_2000;
    pd2 = 0x1_0000_3000;
  };
  export_symbols = (8, 80) ∷ (9, 90) ∷ [];
}

abbrev process : Process
process = record {
  files = 3;
  memory = λ _. 1;
  trampoline = λ _. 2;
  tables = λ _ _. 0;
  shared = λ _. 0;
}

is_given : is_supplied setting ≡ true
unfolding check_file strstr starts_with c_string
is_given = refl

header_byte : (o : ℕ) → header o < 2 ^ 8
header_byte o = ground arith

header-HasTables : HasTables header
header-HasTables = record {
  are_bytes = header_byte;
  phdrs_start = omega arith;
  phdrs_size = omega arith;
  phdrs_end = omega arith;
  shdrs_start = omega arith;
  shdrs_size = omega arith;
  shdrs_end = omega arith;
}

places-IsPlaced : IsPlaced setting.places
places-IsPlaced = record {
  pdpt_page = (omega arith, omega arith);
  pd1_page = (omega arith, omega arith);
  pd2_page = (omega arith, omega arith);
  pml4t-ne-pdpt = λ e. omega (arith, e);
  pml4t-ne-pd1 = λ e. omega (arith, e);
  pml4t-ne-pd2 = λ e. omega (arith, e);
  pdpt-ne-pd1 = λ e. omega (arith, e);
  pdpt-ne-pd2 = λ e. omega (arith, e);
  pd1-ne-pd2 = λ e. omega (arith, e);
}

-- The binary is deployed, so that the result of `setup` is 0.
deploys : deploy header (clear process.memory) ≡ some (true, clear process.memory)
unfolding deploy is_loadable is_elf is_elf64 is_osabi_sysv is_osabi_gnu is_executable scan phdr_fill
    shdr_fill get_phdr_offset get_shdr_offset create_hdr
deploys = refl

setup-ready_example :
    (r : ℤ) × (q : Process) × (setup setting process ≡ some (r, q))
    × ((r ≡ pos 0) ↔ ((is_supplied setting ≡ true) × IsAccepted header))
    × (r ≡ pos 0 → IsSetUp setting process q)
setup-ready_example = setup-ready setting process header-HasTables places-IsPlaced
