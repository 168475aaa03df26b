-- ===== src/Lib.antt =====
-- A Radeon 9200 driver for Picasso96 on 68k Amigas, modelled in part.
--
-- The program. The driver is a library that Picasso96 loads. It reaches the card through a mapped
-- window of registers (src/radeon9200.c), sets modes (src/radeon_mode.c), accelerates 2D drawing
-- (src/radeon_accel.c), and offers a 3D service (src/radeon3d_service.c) whose clients hand over
-- streams of command dwords. 2D and 3D share the command processor (src/radeon_cp.c): a ring in
-- private video memory (src/dma.c) that the driver fills and the card empties. A stream ends with a
-- fence, a write of a sequence number into a scratch register.
--
-- The model.
-- - Mmio (src/radeon9200.c: RadeonRead32 to RadeonMaskPll). A `Bus` is the window, the number of
--   hardware accesses so far and the register writes, the latest first. The card is a parameter
--   `hw`: what it answers to access number `t`, a read of `reg`. Nothing is assumed of it unless a
--   theorem says so. The byte swap of a register access is part of `hw`.
-- - Cp (src/radeon_cp.c). `CpState` is the struct of this name with the ring's memory, a function
--   from the slot to the dword as the 68k stores it, and the bus. Cp.Copy is CpBurstCopySwapped,
--   Cp.Reserve CpReserve, Cp.Stream CpStreamDword and CpCommitStream, Cp.Submit
--   RadeonCpSubmitStream, Cp.Fence RadeonCpTestFence, RadeonCpWaitFence, RadeonCpWaitDrained and
--   RadeonCpAdoptFence, Cp.Idle RadeonCpWait. SWAPLONG comes from a third-party header: it is the
--   parameter `swap_long`, with the hypothesis `Reverses` that it reverses the four bytes of a
--   32-bit word. The low word of the EClock is the parameter `clock`, a function of the number of
--   the access. Cp.Commit is CpCommit and RadeonCpSubmit, Cp.Launch CpReset, CpLoadMicrocode,
--   CpConfigureRing and CpRingTest, Cp.Life the starts, the recovery, the abort and the shutdown. What
--   they meet outside the driver is the record `Outside`: the microcode, the command word of the card,
--   and what the system answers to requests for memory and the timer.
-- - Bios (src/radeon_bios.c). A ROM is a function from the offset to the byte. Bios.Image is
--   SelectX86Image, Bios.Header ParseHeader, TableOffset, MiscTableOffset and BiosMemorySize,
--   Bios.Clock LoadClockInfo, Bios.Dvi LoadDviInfo, Bios.Tables the three tables of commands,
--   Bios.Post PostCard and IsPosted, Bios.Location SetFramebufferLocation and CopyDisabledRom,
--   Bios.Start LoadRom and RadeonInitializeHardware. The bus library and the window of the ROM are the
--   record `System`.
-- - Mmio.Chain: a chain `RadeonWrite32(...) && RadeonMask32(...) && ...` is a list of accesses.
-- - Regs (src/radeon_regs.h): the registers and fields, as constants named after the macros.
-- - Display (src/radeon_mode.c). `Board` has the fields of `struct BoardInfo` and `struct
--   RadeonBoardData` that modes, clocks, palette and cursor work on. Display.Format is the pixel
--   formats and the pitch, Display.Pll CalculatePll and DecodePll, Display.Ladder the clocks that
--   Picasso96 is offered, Display.Timing ValidateMode and the timing registers, Display.Output
--   ApplyDisplayState, ConfigureDac and ProgramPalette, Display.Program ProgramTiming and
--   ProgramClock, Display.Panning RadeonSetPanning, Display.Blank the vertical blank,
--   Display.Callbacks the callbacks and sequences of them. Display.Cursor is src/radeon_cursor.c;
--   its image is allocated by Vram.
-- - Service.Batch (src/radeon3d_service.c: ValidateBatch and what it calls, with
--   include/radeon3d_emit.h). A session is the list of its surfaces, a batch the list of its dwords.
-- - Accel (src/radeon_accel.c). Accel.Surface is ValidateSurface, Accel.Engine the cache of the
--   engine's registers; a path through the engine is a list of writes, past the cache or through it.
--   Accel.Fill is SubmitSolidRect and SubmitPattern, behind PrepareMmioEngine.
-- - AuxPool (src/radeon3d_service.c: AuxPoolAlloc, AuxPoolFree), with the table of
--   src/radeon9200.h.
-- - Vram (src/dma.c).
-- - Base: the helpers that all share: C's comparisons as Booleans, lists, 32-bit arithmetic (the
--   wrap is written out), bit masks, and loops with fuel.
--
-- Fuel. `reserve`, `wait` and `wait_fence` loop while the hardware makes them, so they take fuel,
-- and `none` is fuel that ran out. For `reserve`, `settled + 20003` rounds are enough where the read
-- pointer is at rest from access number `settled` on: 20000 is the stall budget of the code. `wait`,
-- which looks at the read pointer every sixteenth round only, needs `64 * settled + 20049`. For
-- `wait_fence`, `late + 2` rounds are enough where the clock is past the deadline from access number
-- `late` on. The search of the pool has as much fuel as the pool has bytes, and two, and is proved
-- to end within it. `select_x86_image` needs a round for each byte of the ROM and one more. The starts
-- of the command processor hand their fuel to each of their waits, and need what `reserve` does.
--
-- A mode is a value: a client that changes a `ModeInfo` behind the driver's back is outside the
-- model, as are changes that Picasso96 makes to the board between two callbacks. The waits for an
-- update of the PLL recurse on the polls that are left.
--
-- Not modelled. Delays (RadeonDelayUs) take no step. Pointers to the board, its data and the state
-- are taken as not NULL. Of the command processor, the self tests of debug builds and the functions
-- that only read a field are left out; so is the call of the 3D service in RadeonCpAbort. Left out for
-- now are the sessions, segments and leases of the 3D service, the ownership of the 2D engine, the
-- waits for it and its drawing functions but the two fills, and of the display the start-up screen and
-- the installation of the callbacks. The library shell, the microcode, the debug statistics, the tools
-- and the copies of the OpenPci and Picasso96 development files are left out for good.

pub mod Base
pub mod Accel
pub mod AuxPool
pub mod Bios
pub mod Cp
pub mod Display
pub mod Mmio
pub mod Regs
pub mod Service
pub mod Vram
