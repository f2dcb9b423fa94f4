-- ===== src/Display/Header.antt =====
-- `printHeader` of Functions/readElfHeader.c.
use projet_prog.Common.{ℕ, List, [], ◌∷◌, ◌++◌, ◌==◌, if◌then◌else◌}
use projet_prog.Elf.{Ehdr}
use projet_prog.Display.Item.{Item, text, dec, hex}

-- The class; any other than these two prints nothing.
unfoldable pub class_name : ℕ → List Item
class_name x =
    if x == 1
    then text "\tClass:\tELF32\n" ∷ []
    else if x == 2
    then text "\tClass:\tELF64\n" ∷ []
    else []

-- The byte order.
unfoldable pub encoding_name : ℕ → List Item
encoding_name x =
    if x == 1
    then text "\tData:\t2's complement, little endian\n" ∷ []
    else if x == 2
    then text "\tData:\t2's complement, big endian\n" ∷ []
    else text "\tData:\tUnknown\n" ∷ []

-- The `switch` over the ABI.
unfoldable pub abi_name : ℕ → List Item
abi_name x =
    if x == 0
    then text "UNIX - System V" ∷ []
    else if x == 1
    then text "HP - UX" ∷ []
    else if x == 2
    then text "NetBSD" ∷ []
    else if x == 3
    then text "Linux" ∷ []
    else if x == 6
    then text "Sun Solaris" ∷ []
    else if x == 7
    then text "IBM AIX" ∷ []
    else if x == 8
    then text "SGI Irix" ∷ []
    else if x == 9
    then text "FreeBSD" ∷ []
    else if x == 10
    then text "Compaq TRU64" ∷ []
    else if x == 11
    then text "Novell Modesto" ∷ []
    else if x == 12
    then text "OpenBSD" ∷ []
    else if x == 64
    then text "ARM EABI" ∷ []
    else if x == 97
    then text "ARM" ∷ []
    else if x == 255
    then text "Standalone" ∷ []
    else text "Unknown" ∷ []

-- The `switch` over the type of file.
unfoldable pub file_type : ℕ → List Item
file_type x =
    if x == 0
    then text "\tType:\tNONE" ∷ []
    else if x == 1
    then text "\tType:\tREL (Relocatable file)" ∷ []
    else if x == 2
    then text "\tType:\tEXEC (Executable file)" ∷ []
    else if x == 3
    then text "\tType:\tDYN" ∷ []
    else if x == 4
    then text "\tType:\tCORE" ∷ []
    else text "\tType:\tUnknown" ∷ []

-- The `switch` over the machine.
unfoldable pub machine_name : ℕ → List Item
machine_name x =
    if x == 0
    then text "\tMachine:\tNone" ∷ []
    else if x == 2
    then text "\tMachine:\tSPARC" ∷ []
    else if x == 3
    then text "\tMachine:\tx86" ∷ []
    else if x == 4
    then text "\tMachine:\tMotorola 68000" ∷ []
    else if x == 40
    then text "\tMachine:\tARM" ∷ []
    else text "\tMachine:\tUnknown" ∷ []

-- The version of the file, of which only 0 and 1 are known.
unfoldable pub version_text : ℕ → List Item
version_text v =
    if v == 0
    then text "\tVersion:\t0x0" ∷ []
    else if v == 1
    then text "\tVersion:\t0x" ∷ dec v ∷ []
    else text "\tVersion:\tUnknown" ∷ []

unfoldable pub print_header : Ehdr → List Item
print_header h =
    (text "ELF Header:\n" ∷ [])
    ++ (class_name h.e_ident.class
        ++ (encoding_name h.e_ident.encoding
            ++ ((text "\tVersion:\t"
                  ∷ dec h.e_ident.version
                  ∷ text " (current)\n"
                  ∷ text "\tOS/ABI:\t"
                  ∷ [])
                ++ (abi_name h.e_ident.osabi
                    ++ ((text "\n"
                          ∷ text "\tABI Version:\t"
                          ∷ dec h.e_ident.abiversion
                          ∷ text "\n"
                          ∷ [])
                        ++ (file_type h.e_type
                            ++ ((text "\n" ∷ [])
                                ++ (machine_name h.e_machine
                                    ++ ((text "\n" ∷ [])
                                        ++ (version_text h.e_version
                                            ++ (text "\n"
                                                ∷ text "\tEntry point address:\t0x"
                                                ∷ hex 0 h.e_entry
                                                ∷ text "\n\tStart of program headers:\t"
                                                ∷ dec h.e_phoff
                                                ∷ text
                                                    " (bytes into file)\n\tStart of section headers:\t"
                                                ∷ dec h.e_shoff
                                                ∷ text
                                                    " (bytes into file)\n\tSize of this header:\t"
                                                ∷ dec h.e_ehsize
                                                ∷ text " (bytes)\n\tSize of program headers:\t"
                                                ∷ dec h.e_phentsize
                                                ∷ text " (bytes)\n\tNumber of program headers:\t"
                                                ∷ dec h.e_phnum
                                                ∷ text "\n\tSize of section headers:\t"
                                                ∷ dec h.e_shentsize
                                                ∷ text " (bytes)\n\tNumber of section headers:\t"
                                                ∷ dec h.e_shnum
                                                ∷ text "\n\tSection header string table index:\t"
                                                ∷ dec h.e_shstrndx
                                                ∷ text "\n"
                                                ∷ [])))))))))))
