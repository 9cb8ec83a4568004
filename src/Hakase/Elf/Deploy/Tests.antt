-- ===== src/Hakase/Elf/Deploy/Tests.antt =====
-- A small binary: one segment of two bytes and one section of four bytes to clear.
use toshokan.Base.{
  ℕ, Bool, ◌^◌, ◌↔◌, ◌+◌, ◌≡◌, ◌<◌, true, some, ◌++◌, refl, arith, inl, ◌==◌, if◌then◌else◌,
}
use toshokan.Hakase.Elf.Headers.{
  Image, is_elf, is_elf64, is_osabi_sysv, is_osabi_gnu, is_executable, get_phdr_offset,
  get_shdr_offset, create_hdr, get_info_if_load, get_info_if_bss,
}
use toshokan.Hakase.Elf.Deploy.{
  Mem, check_memory_region, phdr_fill, shdr_fill, scan, is_loadable, deploy,
}
use toshokan.Hakase.Elf.Deploy.Region.{check_memory_region_wraps}
use toshokan.Hakase.Elf.Deploy.Scan.{put_all, segments, sections}
use toshokan.Hakase.Elf.Deploy.Loaded.{deploy_confined}
use toshokan.Hakase.Elf.Deploy.Listed.{HasTables}
use toshokan.Hakase.Elf.Deploy.Contents.{HoldsBinary, deploy_loads}
use toshokan.Hakase.Elf.Deploy.Accepts.{IsProgram, IsAccepted, deploy_accepts}

abbrev ident : Image
ident o =
    if o == 0
    then 0x7f
    else if o == 1
    then b'E'
    else if o == 2
    then b'L'
    else if o == 3
    then b'F'
    else if o == 4
    then 2
    else if o == 16
    then 2
    else 0

abbrev header : Image
header o =
    if o == 32
    then 64
    else if o == 40
    then 120
    else if o == 54
    then 56
    else if o == 56
    then 1
    else if o == 58
    then 64
    else if o == 60
    then 1
    else ident o

-- The segment: offset 190, address 0x1_0000_1000, two bytes.
abbrev with_segment : Image
with_segment o =
    if o == 64
    then 1
    else if o == 72
    then 190
    else if o == 81
    then 0x10
    else if o == 84
    then 1
    else if o == 96
    then 2
    else if o == 190
    then 0xaa
    else if o == 191
    then 0xbb
    else header o

-- The section: address 0x1_0000_1001, four bytes.
abbrev binary : Image
binary o =
    if o == 124
    then 8
    else if o == 128
    then 3
    else if o == 136
    then 1
    else if o == 137
    then 0x10
    else if o == 140
    then 1
    else if o == 152
    then 4
    else with_segment o

abbrev before : Mem
before a = 0x11

abbrev loaded : Mem
loaded = (put_all (segments binary ++ sections binary) before).1

deploy_runs : deploy binary before ≡ some (true, loaded)
unfolding deploy is_loadable is_elf is_elf64 is_osabi_sysv is_osabi_gnu is_executable scan phdr_fill
    shdr_fill get_phdr_offset get_shdr_offset create_hdr get_info_if_load get_info_if_bss put_all
    check_memory_region
deploy_runs = refl

loaded_bytes :
    (loaded 0x1_0000_0fff ≡ 0x11)
    × (loaded 0x1_0000_1000 ≡ 0xaa)
    × (loaded 0x1_0000_1001 ≡ 0)
    × (loaded 0x1_0000_1005 ≡ 0x11)
unfolding put_all phdr_fill shdr_fill get_phdr_offset get_shdr_offset create_hdr get_info_if_load
    get_info_if_bss check_memory_region
loaded_bytes = (refl, refl, refl, refl)

ident_byte : (o : ℕ) → ident o < 2 ^ 8
ident_byte o = ground arith

header_byte : (o : ℕ) → header o < 2 ^ 8
header_byte o = ground (arith, ident_byte o)

with_segment_byte : (o : ℕ) → with_segment o < 2 ^ 8
with_segment_byte o = ground (arith, header_byte o)

binary-HasTables : HasTables binary
binary-HasTables = record {
  are_bytes = λ o. ground (arith, with_segment_byte o);
  phdrs_start = omega arith;
  phdrs_size = omega arith;
  phdrs_end = omega arith;
  shdrs_start = omega arith;
  shdrs_size = omega arith;
  shdrs_end = omega arith;
}

deploy_accepts_example :
    (b : Bool) × (m' : Mem) × (deploy binary before ≡ some (b, m'))
    × ((b ≡ true) ↔ IsAccepted binary)
    × (¬ IsProgram binary → m' ≡ before)
deploy_accepts_example = deploy_accepts binary binary-HasTables before

deploy_confined_example : loaded 0x70000 ≡ 0x11
unfolding phdr_fill shdr_fill get_phdr_offset get_shdr_offset create_hdr get_info_if_load
    get_info_if_bss
deploy_confined_example =
    deploy_confined binary before (omega arith) (omega arith) true loaded deploy_runs (omega arith)
      0x70000 (inl (omega arith))

deploy_loads_example : HoldsBinary binary before loaded
deploy_loads_example = deploy_loads binary binary-HasTables before loaded deploy_runs

-- A segment of 2 ^ 64 - 4096 bytes.
check_memory_region_wraps_example :
    (check_memory_region 0x1_0000_1000 0xffff_ffff_ffff_f000 ≡ true)
    × (0x1_4000_0000 < 0x1_0000_1000 + 0xffff_ffff_ffff_f000)
check_memory_region_wraps_example =
    check_memory_region_wraps 0x1_0000_1000 0xffff_ffff_ffff_f000 (omega arith) (omega arith)
      (omega arith)
