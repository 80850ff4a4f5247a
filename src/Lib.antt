-- ===== src/Lib.antt =====
-- os2016spring: two course projects on operating systems.
--
-- prj1 has schedulers in user space. A scheduler reads jobs (name, ready time, execution time),
-- forks ./child for each job when its ready time has come, and writes time slices to the child's
-- pipe; it raises the child's priority above its own, so that the child burns its slice before the
-- scheduler goes on. prj2 copies a file between two machines: the master program hands the file to a
-- kernel device, which sends it over a socket; the slave program asks its device for what arrives
-- and writes it to a file. Both know two methods, f (read and write) and m (mmap).
--
-- Files of prj1:
--   Os            the calls of a scheduler as events of a trace, newest first; the answers of the
--                 operating system as a parameter; how a run can end. Os.Ends is total correctness:
--                 the run meets its postcondition, or it exits where a call has failed of which the
--                 program looks at the answer: Checks says which. Os.Fuel is what more fuel
--                 changes of a loop that ends, and Termination the four main loops.
--   Qsort         qsort of the C library as a parameter: a rearrangement that ascends by the key
--                 that the comparison compares. It is not assumed to be stable. Qsort.Insertion is
--                 one instance.
--   Batch         the static functions that prj1/fifo.c and prj1/sjf.c share: cmp, readFile
--                 (read_file), executeFork (execute_fork), decideTime (decide_time), waitLoop
--                 (wait_loop), assign. The array is kept cut into the finished jobs, the forked ones
--                 and those still to be forked. Its children hold the invariant and the lemmas.
--   Fifo, Sjf     FIFO of prj1/fifo.c and SJF of prj1/sjf.c, a round being the loop's body. The
--                 static functions of sjf.c are those of Batch under their own names.
--   Psjf          PSJF of prj1/psjf.c with its machine integers written out modulo 2^32.
--   ReadyList     the circular list of prj1/rr.c: nodes on a heap, add_list, remove_list. Its child
--                 Queue shows it to be a queue.
--   Rr            RR of prj1/rr.c. Rr.Robin is round robin, told one unit of time after the other;
--                 Rr.Blocking is about a job with nothing to do.
--   Main          the choice of a scheduler, prj1/main.c. Main.Logging puts the program together with
--                 the log of the kernel.
--   Input         the lines of the input as tasks. Complete: what a list of completions owes to
--                 them. Agreement: rr.c and fifo.c side by side.
--   Printing      the line that prj1/printtime.h formats; sprintf is written out for the two kinds
--                 of number that it is given.
--   SystemCalls   the two system calls of prj1/linux-3.13.2, sys_myprint and sys_gettime, their
--                 numbers in syscall_64.tbl, and their calls in prj1/printtime.h and prj1/p.c; printk
--                 with its log and getnstimeofday are a parameter. SystemCalls.Log reads the log.
--   Results       what is printed against what has happened to the jobs, told of a trace.
--                 Results.Books is the ledger of the jobs that are left and the lines that are due;
--                 Batch.Results, Fifo.Results, Sjf.Results, Psjf.Results and Rr.Results keep it
--                 through the schedulers, with Os.Returns, the partial correctness of a run.
--   Child         the job, prj1/child.c, and when the slices that it is sent end it.
--                 Child.Reporting is prj1/child2.c, the same with messages of its progress.
--   Pipe          the text of the slices on a pipe, as the schedulers write it and scanf of child.c
--                 reads it.
--   Served        a scheduler and its jobs together: what is written to a pipe, and what child.c
--                 makes of it. Served.Accounts is what is still owed to each job.
--   Task          what the specifications see of a job.
--   Fifo.Schedule, Sjf.Shortest, Psjf.Preemptive and Rr.Robin hold the independent specifications:
--   the order of arrival as a function, and the other disciplines as relations on the completions.
-- Times of fifo.c, sjf.c and rr.c are int and are taken as natural numbers: no input is negative,
-- and the last arrival and the execution times together are taken to stay below 2^31. A main loop
-- runs on fuel, twice the number of jobs and two: each round ends a job or brings the clock to the
-- next arrival, and in PSJF also forks one; in RR the sum of the execution times is added, since a
-- round can also use up a quantum. The theorems say that a run ends, so that the fuel is enough.
--
-- Files of prj2/src/sample:
--   Kernel        the calls of the two devices as a history, newest first; the answers of the kernel
--                 and of the module ksocket as a parameter.
--   Mapping       what both devices declare for the page that a program shares with them: struct
--                 mmap_info, the area, the tables of operations. Mapping.Life is what the kernel does
--                 with files and areas, as acts on a world of objects, and when it may; Mapping.Sound
--                 an invariant of that world, and what a device has to do for it; Master.Pages
--                 and Slave.Pages are about the two devices.
--   Master.Device, Master.Program
--                 master_device/master_device.c and user_program/master.c.
--   Slave.Device, Slave.Program
--                 slave_device/slave_device.c and user_program/slave.c.
--   Master.Trial  user_program/test_md.c, as acts on that world.
--   Master.Sends, Master.Whole, Slave.Saves, Slave.Whole, Slave.Failing, Master.Limit, Slave.Limit
--                 what arrives on the wire, what is saved, also when the connection fails, and the
--                 address limits of the threads.
--                 Slave.Rounds is one round of each loop of the slave, Slave.Stream the stream
--                 that the socket delivers, cut into chunks.
--   Copy          the two programs together, in Copy.Whole.
-- The loops of the master run on fuel above the length of the file, which is enough; those of the
-- slave have no bound in the code, since the stream has none, and their fuel is above the number of
-- chunks. That a local file is read and written whole, byte for byte, is taken from the operating
-- system.
--
-- A thread is named by a number, and has its own address limit; in the slave it is the thread of the
-- one program. The master device notes that it goes behind the end of a buffer (overrun); what is
-- there, and what comes of it, is not modelled. The offset of the slave is an int of 32 bits, and no
-- file is mapped from a negative one.
--
-- In the life of a page the act of the kernel is given with the area that it is about, `kmalloc`
-- gives an address that is not in use, and a file is closed when no area maps it. There is no loop. What the kernel does where a fault is answered with
-- 0 and no page is a parameter of Master.Trial.
--
-- A child is told of by the events of its parent. The theorems are about runs in which each execl of
-- ./child succeeds: where it fails, the child exits, or in psjf.c goes on as a second scheduler.
--
-- The log of the kernel is taken to keep all that is printed, and printk to add a text of up to 99
-- characters as it is.
--
-- Not modelled: prj2's ksocket, which is the copy of another project's library; the print of page
-- table entries in the devices, which is output only; the measurement of time in the programs of
-- prj2; prj1/linux-3.13.2's header syscalls.h, which is a file of Linux with two declarations added.
pub mod Agreement
pub mod Base
pub mod Batch
pub mod Child
pub mod Complete
pub mod Copy
pub mod Fifo
pub mod Input
pub mod Kernel
pub mod Main
pub mod Mapping
pub mod Master
pub mod Os
pub mod Pipe
pub mod Printing
pub mod Psjf
pub mod Qsort
pub mod ReadyList
pub mod Rr
pub mod Served
pub mod Sjf
pub mod Slave
pub mod SystemCalls
pub mod Task
pub mod Results
pub mod Termination
mod Tests
