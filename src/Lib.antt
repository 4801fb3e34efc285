-- ===== src/Lib.antt =====
-- A model of webboot, the boot menu that downloads and boots ISO images (u-root/webboot, written
-- in Go).
--
-- The program shows menus on a terminal. Its main loop (cmds/webboot/webboot.go) takes a chosen
-- entry to the next: a directory of cached ISOs, a download, the log, or an ISO to boot. A
-- download may set up a wireless network first (cmds/webboot/network.go, pkg/wifi). An ISO is
-- mounted, its boot configurations are read or loaded (pkg/bootiso), one is chosen, and the
-- machine jumps into it with kexec.
--
-- The files and what they model:
-- - Prelude: shared names, Go's byte strings, slices, decimal numbers, and lemmas on them.
-- - Exec: results of Go functions (a value, an error, waiting for ever, a panic, the end of the
--     process), actions that pass a state along, and rules for them.
-- - FilePath: Clean, Join, Base, Dir and Ext of path and path/filepath, on Unix.
-- - Os: calls of the operating system on a machine that is a parameter, kept as a trace; deferred
--     calls.
-- - Menu: pkg/menu/menu.go. The events that termui delivers are a list, and reading past its end
--     waits for ever. Event has the event loop and its rules, Key the case labels, Ui the state
--     that the prompts share. TextInput is processInput and PromptTextInput, Wrap the splitting of
--     long lines, Message DisplayResult, Options parsingMenuOption, Entries PromptMenuEntry,
--     Confirm PromptConfirmation, Progress the progress bar as two threads. Their children hold
--     proofs.
-- - Passphrase: pkg/wpa/passphrase/passphrase.go.
-- - Dhclient: pkg/dhclient/dhclient.go, with the channel as its state.
-- - Wifi: pkg/wifi/iwl.go, stub.go, native.go and types.go. Regex has the five regular
--     expressions, Iwlist the parser of a scan, Iwlist/Cells what a scan prints (written for the
--     round trip, from what the expressions look for), Config the configurations of
--     wpa_supplicant, Worker the three workers. Iwlist/Lines says where a name stands in a line.
--     Wireless has the functions of pkg/wifi/wireless.go with the numbers of requests and events.
-- - Bootiso: pkg/bootiso/bootiso.go. Image has the images and the search by label, Parse
--     ParseConfigFromISO, Custom LoadCustomConfigs (Custom/Copying has its copies call by call),
--     Boot the functions that boot, Checksum VerifyChecksum.
-- - Cmd: cmds/webboot. Types is types.go, Utils and Download are utils.go with distroData
--     (Download/Disk says what the system does with files), Counter is WriteCounter and the copy
--     that feeds it, read by read, Network is network.go, App the variables of the package and the
--     parameters, Mirrors the download menu, Boot the exec methods of ISOs and directories with
--     getCachedDirectory, Main the main menu, errors, the log and the loop of main.
-- - Builder: webboot.go at the root, which builds the image; strings.Fields is held to ASCII.
--     Builder/Wanted has what it is to look for and to run, written apart from the code.
-- - Tests: runs at fixed inputs.
--
-- Loops over events are structural on the list of events. getMainMenu and selectWirelessNetwork
-- have as many rounds as there are events, and one more. The loop of main has a number of rounds
-- that is an argument; more rounds than there are events change nothing, since each round that
-- leads to another entry takes an event (Cmd/Main/Loop). A loop that is out of rounds counts as
-- waiting for ever.
--
-- Parameters, since their code is not in the repository: the operating system, loop devices,
-- mounts and kexec (Machine), commands (Commands), the parsers of boot configurations (Parsers),
-- hash functions, the key derivation, and regular expressions of distributions, templates, JSON,
-- directories and network links (Env). A map of distributions is the list of its pairs in the
-- order in which range comes to them. Files go by their names.
--
-- Not modelled: positions, sizes and colours of widgets, the progress bars of the command other
-- than that of a download, what the verbose flags log, stack traces and command output within
-- error texts, time limits, the structs of pkg/wifi/wireless.go with the constants for their
-- fields. The counts of WriteCounter, floating-point numbers in the source, are natural numbers,
-- which they hold exactly below 2^53, and the text made of them is a parameter; a copy within
-- Download is one call, and Counter shows its reads.
pub mod Prelude
pub mod Exec
pub mod Os
pub mod FilePath
pub mod Menu
pub mod Passphrase
pub mod Dhclient
pub mod Builder
pub mod Wifi
pub mod Bootiso
pub mod Cmd
mod Tests
