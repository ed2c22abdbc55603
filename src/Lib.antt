-- ===== src/Lib.antt =====
-- A model of the operating system exercise in this repository: a console, a kernel, a CPU, a memory
-- and a filesystem, five C programs that talk over sockets.
--
-- The console reads a pseudocode and sends its instructions to the kernel. The kernel hands the
-- context of a process to the CPU, which carries instructions out, asks the memory for reads and
-- writes, and sends the context back where an instruction is the kernel's affair. The memory keeps a
-- bitmap of its positions and a table of segments.
--
-- Common/       tests on numbers, lists, `int` as an integer, texts, outcomes (a result, `exit(-1)`,
--               or undefined behaviour) and a logic over outcomes (Common/Hoare)
-- Utils/        utils/src/utils: Buffer (buffer.c), Segments, Instructions, Frames, Contexto (utils.c
--               and the callers in cpu.c, planificador.c, filesystem.c), Paquete (utils.c, an earlier
--               interface), the enumerations of flags.h
-- Consola       consola/src: parsear.c and console.c, and with Consola/Envio the way of a program to
--               the kernel
-- Cpu/          cpu/src/cpu.c: Registros, Enteros (atoi, / and % of the C library), Decode (one
--               instruction), Rafaga (the loop of `realizar_instrucciones`)
-- Memoria/      memoria/src: Espacios (segmentacion.c, the bitmap), Segmentos (segmentacion.c, the table,
--               creation, removal), Arranque (memoria.c, what is sent at the start), Solicitudes
--               (memoria_solicitudes.c, writes and reads, the thread that serves the filesystem),
--               Pedidos (memoria_solicitudes.c, the thread that serves the kernel)
-- Kernel/       kernel/src: Arranque (kernel.c, the greetings), Sistema (estado.c and planificador.c,
--               the queues and semaphores), and of planificador.c: Conexion (the thread of a console),
--               Contexto (a new process, what is sent to the CPU), Recursos, Hrrn, Archivos (the
--               requests to the filesystem), Abiertos (the tables of open files), Planificador (the
--               planners, the turns of the threads), Respuesta (the `switch` on the CPU's answer)
-- Filesystem/   filesystem/src: operaciones.c in Filesystem itself (the search for a block, the
--               truncation of a file) and Bloques (reading and writing by blocks); filesystem.c in
--               Inicio (the bitmap at the start) and Servidor (a turn of `atenderKernel`)
-- Tests/        the definitions and the results at small inputs
--
-- Two programs are put together by giving one what the other sends. Kernel/Arranque/Juntos starts the
-- kernel with the memory; Memoria/Pedidos/Turnos asks for a segment and reads the answer;
-- Kernel/Archivos runs the opening of a file with a turn of the filesystem for each request;
-- Kernel/Conexion/Consola has a console connect, with the kernel's thread for it and the memory that is
-- told; Kernel/Contexto/Programa follows the program from the console's file, by the kernel, to the
-- CPU; Kernel/Respuesta/Destino goes from an instruction of the CPU to the turn of the kernel.
--
-- A function keeps its name in the spelling of this language: `find_segmento_con_id` for
-- `findSegmentoConId`, `hay_que_mandar_contexto` for `hayQueMandarContexto`. An `int` is an
-- integer and a `uint32_t` a natural number; where the source wraps, `% 2 ^ 32` is written out. A
-- socket is the list of bytes still to be received, a `t_list` is a list, a `char*` the text that it
-- leads to, a block of memory its bytes. `t_bitarray` of the commons library is a parameter,
-- Memoria/Bitarray.antt, with the laws of its three operations. What the memory answers to the CPU,
-- and the contexts that the kernel sends it, are arguments.
--
-- What the program leaves to the C library and the machine is a parameter too. `usable n` are the
-- bytes that may be written of what `malloc(n)` returns, which the console (parsear.c), and whoever
-- unpacks a row of the table of segments (utils.c), write more than n of; `por_valor` is what a
-- condition that takes a row by value finds where the list hands it the row's address (segmentacion.c,
-- memoria_solicitudes.c, and for open files planificador.c); `abre` says whether the filesystem can open a name (filesystem.c); `lugar` is
-- the room from `arrayRecursos` on (planificador.c). A write past such a room is a fault. Buffers are
-- shorter than 2 GiB, the range of the `int`s of buffer.c.
--
-- The kernel is a relation of steps, `Paso`: one turn of the thread that brings a program in, of the
-- long or short term planner, of the thread that executes, or of the one that the filesystem wakes, in
-- any order. A turn ends where its thread waits at a semaphore: a planner has one turn for its first
-- semaphore and one for its second, with the move of a process behind it, and an I/O has one turn up to
-- the wait for its end, with the process in BLOCKED, and one from there. Turns do not overlap, although
-- `pop_blocked` takes no mutex. The answers of the CPU among them are YIELD, I/O, WAIT,
-- SIGNAL, F_READ, F_WRITE, F_SEEK, F_TRUNCATE and the exits. `Alcanza` is what it comes to from
-- `inicializar_planificador`. Kernel/Planificador/Diagrama has the diagram of the states of a process,
-- on queues up to their order; Kernel/Planificador/Espera counts the choices of the planner that a
-- process of READY waits for.
--
-- Loops without a bound in the source run on fuel: `parsear_pseudocodigo` and
-- `obtener_lista_instrucciones` (one turn for each instruction is enough), `correr` (the sum of the
-- instructions left and of the lists still to come), `buscar_segmento_desde` (`tam_memoria` turns),
-- `leer_valores` (one turn for each value and one more).
--
-- Not modelled: sockets, the start of threads, configuration and logs. HRRN's choice is an argument of
-- the short-term planner, and the wait of each process an argument of that choice. The kernel's cases
-- for segments are modelled as far as the request to the memory and the reading of its answer:
-- `consultar_memoria_create` is called with one argument less than it takes. I_CLOSE, `m_read` and
-- best and worst fit are undefined on every path that does something; so is compaction, which reads
-- the rows that it has freed. The end of a process is not reached: `estadoEnExit` locks the mutex that
-- it holds. The console's serializador.c is not called.
pub mod Common
pub mod Utils
pub mod Consola
pub mod Cpu
pub mod Memoria
pub mod Kernel
pub mod Filesystem
pub mod Tests
